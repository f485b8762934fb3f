-- ===== src/Admin/Channels.antt =====
-- channels-go/internal/channels/service.go and channel.go.
use fieldwatchai_comms_openk.Prelude.{
  ℕ, Bool, true, false, not, ◌&&◌, ◌||◌, Option, none, some, List, [], ◌∷◌, map, comparable_nat,
  comparable_list, codes, if◌then◌else◌,
}
use fieldwatchai_comms_openk.Parser.{trim_space}
use fieldwatchai_comms_openk.Policy.Float.{Float64}
use fieldwatchai_comms_openk.Store.{Text, Account, Channel, ChannelAccount, Result, ok, err}
use fieldwatchai_comms_openk.Store.Accounts.{get_account_for_tenant}
use fieldwatchai_comms_openk.Store.Channels.{
  ChannelChange, create_channel, get_channel_for_tenant, list_channels_for_tenant, update_channel,
  link_account_to_channel, list_account_links_for_channel, unlink_account_from_channel,
}
use fieldwatchai_comms_openk.World.{M, ◌>>=◌, pure, query, new_id}
use fieldwatchai_comms_openk.Admin.{Deps, invalid, Outcome, done, failed, missing}
use fieldwatchai_comms_openk.Admin.Accounts.{
  is_blank, member, or_text, answered, answered_or_internal, removed,
}

-- `validDirections`, `validReplyPolicies`, `validModes` and `DefaultCommands`
abbrev pub valid_directions : List Text
valid_directions = codes "inbound" ∷ codes "outbound" ∷ codes "both" ∷ []

abbrev pub valid_reply_policies : List Text
valid_reply_policies = codes "reply_to_sender" ∷ codes "broadcast" ∷ codes "custom" ∷ []

abbrev pub valid_modes : List Text
valid_modes = codes "structured" ∷ codes "passthrough" ∷ []

abbrev pub default_commands : List Text
default_commands =
    codes "STATUS"
    ∷ codes "NEEDS"
    ∷ codes "DAMAGE"
    ∷ codes "MISSING"
    ∷ codes "RESOURCE"
    ∷ codes "HERE"
    ∷ codes "NOTE"
    ∷ codes "SOS"
    ∷ []

-- `LinkInput`, less the tenant.
pub record LinkInput : Type 0 where
  pub tenant_id : ℕ
  pub link : ChannelAccount

-- `CreateInput`
pub record ChannelInput : Type 0 where
  pub tenant_id : ℕ
  pub name : Text
  pub parser_config : Text
  pub workflow_url : Text
  pub reply_policy : Text
  pub confidence_thresholds : Text
  pub echo_back_enabled : Option Bool
  pub recall_window_seconds : Option ℕ

-- `UpdateInput`
pub record ChannelUpdate : Type 0 where
  pub name : Option Text
  pub parser_config : Text
  pub workflow_url : Option Text
  pub reply_policy : Option Text
  pub confidence_thresholds : Text
  pub echo_back_enabled : Option Bool
  pub recall_window_seconds : Option ℕ

-- The API view of a channel: the row, with its mode and its URL.
pub record ChannelView (F : Type 0) : Type 0 where
  pub row : Channel F
  pub mode : Text
  pub workflow_url : Text

abbrev mode_in : Option (List Text × Text) → Text
mode_in none = []
mode_in (some (commands, mode)) = mode

abbrev text_in : Option Text → Text
text_in none = []
text_in (some s) = s

-- `toAPI`
unfoldable pub channel_view_of : {F : Type 0} → Channel F → ChannelView F
channel_view_of c = record {
  row = c;
  mode = or_text (mode_in c.parser_config) (codes "structured");
  workflow_url = text_in c.workflow_url;
}

-- `pgtype.Text` of a text that is NULL where it is empty.
abbrev null_if_blank : Text → Option Text
null_if_blank [] = none
null_if_blank (c ∷ s) = some (c ∷ s)

abbrev or_true : Option Bool → Bool
or_true none = true
or_true (some b) = b

abbrev or_default : Option ℕ → ℕ
or_default none = 120
or_default (some n) = n

-- `validateParserConfig`, of what a text decodes to.
unfoldable pub valid_parser : Option (List Text × Text) → Bool
valid_parser none = false
valid_parser (some (commands, mode)) = is_blank mode || member mode valid_modes

module _ (f : Float64) where
  abbrev pub in_unit : f.F → Bool
  in_unit v = f.ge v (f.tenths 0) && f.ge (f.tenths 10) v

  -- `validateThresholds`, of what a text decodes to; no number of a JSON text is NaN.
  unfoldable pub valid_thresholds : Option (Option f.F × Option f.F) → Bool
  valid_thresholds none = false
  valid_thresholds (some (none, medium)) = false
  valid_thresholds (some (some high, none)) = false
  valid_thresholds (some (some high, some medium)) =
      in_unit high && in_unit medium && f.ge high medium

module _ (f : Float64) (d : Deps f) where
  -- `List`
  unfoldable pub list_channels : ℕ → M f.F (Outcome (List (ChannelView f.F)))
  list_channels tenant_id = do
    r ← query (list_channels_for_tenant tenant_id)
    pure (answered_or_internal (map channel_view_of) r)

  -- `Get`
  unfoldable pub get_channel : ℕ → ℕ → M f.F (Outcome (ChannelView f.F))
  get_channel id tenant_id = do
    r ← query (get_channel_for_tenant id tenant_id)
    pure (answered channel_view_of r)

  unfoldable pub links_of :
      ℕ → Outcome (ChannelView f.F) → M f.F (Outcome (List (ChannelAccount × Account)))
  links_of channel_id (failed e) = pure (failed e)
  links_of channel_id (done c) = do
    r ← query (list_account_links_for_channel channel_id)
    pure (answered_or_internal (λ rows. rows) r)

  -- `ListLinks`
  unfoldable pub list_links : ℕ → ℕ → M f.F (Outcome (List (ChannelAccount × Account)))
  list_links channel_id tenant_id = do c ← get_channel channel_id tenant_id; links_of channel_id c

  unfoldable pub link_loaded : ChannelAccount → Result Account → M f.F (Outcome ChannelAccount)
  link_loaded l (err e) = pure (failed (missing e))
  link_loaded l (ok a) = do
    r ← query (link_account_to_channel l)
    pure (answered_or_internal (λ k. k) r)

  unfoldable pub link_found : LinkInput → Outcome (ChannelView f.F) → M f.F (Outcome ChannelAccount)
  link_found in_ (failed e) = pure (failed e)
  link_found in_ (done c) = do
    r ← query (get_account_for_tenant in_.link.account_id in_.tenant_id)
    link_loaded in_.link r

  -- `Link`
  unfoldable pub link : LinkInput → M f.F (Outcome ChannelAccount)
  link in_ =
      if member in_.link.direction valid_directions
      then (do c ← get_channel in_.link.channel_id in_.tenant_id; link_found in_ c)
      else pure (failed invalid)

  unfoldable pub unlink_found : ℕ → ℕ → Outcome (ChannelView f.F) → M f.F (Outcome (Unit {0}))
  unlink_found channel_id account_id (failed e) = pure (failed e)
  unlink_found channel_id account_id (done c) = do
    r ← query (unlink_account_from_channel channel_id account_id)
    pure (removed r)

  -- `Unlink`
  unfoldable pub unlink : ℕ → ℕ → ℕ → M f.F (Outcome (Unit {0}))
  unlink channel_id account_id tenant_id = do
    c ← get_channel channel_id tenant_id
    unlink_found channel_id account_id c

  -- The parser configuration and the thresholds of a new channel.
  unfoldable pub parser_or_default : Text → Option (List Text × Text)
  parser_or_default [] = some (default_commands, codes "structured")
  parser_or_default (c ∷ s) = d.decode_parser (c ∷ s)

  unfoldable pub thresholds_or_default : Text → Option (Option f.F × Option f.F)
  thresholds_or_default [] = some (some (f.tenths 9), some (f.tenths 5))
  thresholds_or_default (c ∷ s) = d.decode_thresholds (c ∷ s)

  abbrev pub policy_of : ChannelInput → Text
  policy_of in_ = or_text in_.reply_policy (codes "reply_to_sender")

  -- The checks of `Create`.
  unfoldable pub is_valid_input : ChannelInput → Bool
  is_valid_input in_ =
      not (is_blank (trim_space in_.name))
      && member (policy_of in_) valid_reply_policies
      && valid_parser (parser_or_default in_.parser_config)
      && valid_thresholds f (thresholds_or_default in_.confidence_thresholds)

  -- The parameters of `CreateChannel`, with the default of the table for the years.
  unfoldable pub channel_row : ChannelInput → ℕ → Channel f.F
  channel_row in_ id = record {
    id = id;
    tenant_id = in_.tenant_id;
    name = in_.name;
    parser_config = parser_or_default in_.parser_config;
    workflow_url = null_if_blank in_.workflow_url;
    reply_policy = policy_of in_;
    confidence_thresholds = thresholds_or_default in_.confidence_thresholds;
    echo_back_enabled = or_true in_.echo_back_enabled;
    recall_window_seconds = or_default in_.recall_window_seconds;
    audit_retention_years = 7;
    created_at = d.now;
  }

  -- `Create`
  unfoldable pub new_channel : ChannelInput → M f.F (Outcome (ChannelView f.F))
  new_channel in_ =
      if is_valid_input in_
      then (do
        id ← new_id d.ids
        r ← query (create_channel (channel_row in_ id))
        pure (answered_or_internal channel_view_of r))
      else pure (failed invalid)

  -- A JSON field of an update; an empty one leaves the column as it is.
  abbrev pub parser_change : Text → Option (Option (List Text × Text))
  parser_change [] = none
  parser_change (c ∷ s) = some (d.decode_parser (c ∷ s))

  abbrev pub thresholds_change : Text → Option (Option (Option f.F × Option f.F))
  thresholds_change [] = none
  thresholds_change (c ∷ s) = some (d.decode_thresholds (c ∷ s))

  abbrev pub all_of : {A : Type 0} → (A → Bool) → Option A → Bool
  all_of p none = true
  all_of p (some a) = p a

  -- The checks of `Update`.
  unfoldable pub is_valid_update : ChannelUpdate → Bool
  is_valid_update in_ =
      all_of (λ n. not (is_blank (trim_space n))) in_.name
      && all_of (λ p. member p valid_reply_policies) in_.reply_policy
      && all_of valid_parser (parser_change in_.parser_config)
      && all_of (valid_thresholds f) (thresholds_change in_.confidence_thresholds)

  -- The parameters of `UpdateChannel`.
  unfoldable pub channel_change : ChannelUpdate → ChannelChange f.F
  channel_change in_ = record {
    name = in_.name;
    parser_config = parser_change in_.parser_config;
    workflow_url = in_.workflow_url;
    reply_policy = in_.reply_policy;
    confidence_thresholds = thresholds_change in_.confidence_thresholds;
    echo_back_enabled = in_.echo_back_enabled;
    recall_window_seconds = in_.recall_window_seconds;
  }

  -- `Update`
  unfoldable pub change_channel : ℕ → ℕ → ChannelUpdate → M f.F (Outcome (ChannelView f.F))
  change_channel id tenant_id in_ =
      if is_valid_update in_
      then (do
        r ← query (update_channel id tenant_id (channel_change in_))
        pure (answered channel_view_of r))
      else pure (failed invalid)
