-- ===== src/Admin/Examples.antt =====
-- A tenant that sets up an account and a channel, and links them.
use fieldwatchai_comms_openk.Prelude.{
  ℕ, ◌≡◌, refl, none, some, List, [], ◌∷◌, ◌+◌, In, codes, length, is_space,
}
use fieldwatchai_comms_openk.Parser.{trim_space, trim_left, trim_right}
use fieldwatchai_comms_openk.Policy.Float.{millionths}
use fieldwatchai_comms_openk.Store.{Account, Channel}
use fieldwatchai_comms_openk.Store.Queries.{inbound_channel}
use fieldwatchai_comms_openk.Store.Accounts.{create_tenant, create_account, get_account_for_tenant}
use fieldwatchai_comms_openk.Store.Channels.{
  create_channel, get_channel_for_tenant, link_account_to_channel,
}
use fieldwatchai_comms_openk.World.{World, query, fails, answer, new_id}
use fieldwatchai_comms_openk.Admin.{Deps}
use fieldwatchai_comms_openk.Admin.Accounts.{
  new_tenant, tenant_row, created_tenant, new_account, encrypt_and_store, store_account,
  account_row, answered,
}
use fieldwatchai_comms_openk.Admin.Channels.{
  new_channel, is_valid_input, channel_row, parser_or_default, thresholds_or_default, valid_parser,
  valid_thresholds, get_channel, link, link_found, link_loaded,
}
use fieldwatchai_comms_openk.Admin.Calls
use fieldwatchai_comms_openk.Admin.Calls.{Call, serve, serve_all}
use fieldwatchai_comms_openk.Admin.Sound.{IsConfigured, IsSound}
use fieldwatchai_comms_openk.Admin.Routes.{serve_all-routes}

abbrev deps : Deps millionths
deps = record {
  ids = λ n. n + 10;
  now = 1000;
  encrypt = λ c. c;
  decode_parser = λ s. none;
  decode_thresholds = λ s. none;
}

abbrev empty_world : World ℕ
empty_world = record {
  db = record {
    messages = [];
    tenants = [];
    accounts = [];
    channels = [];
    links = [];
    contacts = [];
    endpoints = [];
  };
  faults = [];
  drawn = 0;
  jobs = [];
  sends = [];
  forwards = [];
}

abbrev set_up : List Call
set_up =
    Calls.create_tenant (record { id = some 1; name = codes "Acme"; plan = []; settings = [] })
    ∷ Calls.create_account (record {
      tenant_id = 1;
      type = codes "telegram";
      owner_type = codes "tenant";
      label = codes "Bot";
      platform_identifier = codes "bot";
      status = codes "active";
      capabilities = [];
      credentials = codes "key";
    })
    ∷ Calls.create_channel (record {
      tenant_id = 1;
      name = codes "field";
      parser_config = [];
      workflow_url = codes "http://hub";
      reply_policy = [];
      confidence_thresholds = [];
      echo_back_enabled = none;
      recall_window_seconds = none;
    })
    ∷ Calls.link_account (record {
      tenant_id = 1;
      link = record {
        channel_id = 12;
        account_id = 11;
        direction = codes "both";
        priority = 0;
        routing_filter = [];
      };
    })
    ∷ []

set_up_run :
    (length (serve_all millionths deps set_up empty_world).1.db.links ≡ 1)
    × (length (serve_all millionths deps set_up empty_world).1.db.channels ≡ 1)
unfolding serve_all serve new_tenant trim_space trim_left trim_right is_space new_id query fails
    answer create_tenant tenant_row created_tenant new_account encrypt_and_store store_account
    create_account account_row new_channel is_valid_input parser_or_default thresholds_or_default
    valid_parser valid_thresholds channel_row create_channel link get_channel get_channel_for_tenant
    answered link_found get_account_for_tenant link_loaded link_account_to_channel
set_up_run = (refl, refl)

empty-IsSound : IsSound millionths empty_world.db
empty-IsSound = record { channel_ids = tt; account_ids = tt; joined = tt; configured = tt }

serve_all-routes_example :
    let db = (serve_all millionths deps set_up empty_world).1.db in
    IsSound millionths db
    × ((a : Account) (c : Channel ℕ)
        → In a db.accounts
        → inbound_channel a.id db ≡ some c
        → (c.tenant_id ≡ a.tenant_id) × IsConfigured millionths c)
serve_all-routes_example = serve_all-routes millionths deps set_up empty_world empty-IsSound
