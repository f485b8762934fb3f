-- ===== src/Admin/Sound.antt =====
-- Tables whose links join a channel and an account of one tenant, and whose channels the services can
-- read.
use fieldwatchai_comms_openk.Prelude.{
  ◌≡◌, ◌⊎◌, inl, inr, refl, sym, ◌∙◌, true, Option, none, some, List, [], ◌∷◌, All, In, arith,
}
use fieldwatchai_comms_openk.Policy.Float.{Float64}
use fieldwatchai_comms_openk.Store.{Text, Account, Channel, ChannelAccount, Db}
use fieldwatchai_comms_openk.Admin.Channels.{valid_modes, valid_parser, valid_thresholds}
use fieldwatchai_comms_openk.Admin.Rows.{Distinct, member-In}

module _ {F : Type 0} where
  -- The channel and the account of a link exist and belong to one tenant.
  pub record Joined (db : Db F) (l : ChannelAccount) : Type 0 where
    pub channel : Channel F
    pub channel_row : In channel db.channels
    pub channel_id : channel.id ≡ l.channel_id
    pub account : Account
    pub account_row : In account db.accounts
    pub account_id : account.id ≡ l.account_id
    pub tenant : channel.tenant_id ≡ account.tenant_id

  -- A link stays joined where its channel and its account stay, but for columns other than the ids.
  pub still-Joined :
      (db db' : Db F) (l : ChannelAccount)
      → ((c : Channel F)
          → In c db.channels
          → (c' : Channel F) × In c' db'.channels × (c'.id ≡ c.id) × (c'.tenant_id ≡ c.tenant_id))
      → ((a : Account)
          → In a db.accounts
          → a.id ≡ l.account_id
          → (a' : Account) × In a' db'.accounts × (a'.id ≡ a.id) × (a'.tenant_id ≡ a.tenant_id))
      → Joined db l
      → Joined db' l
  still-Joined db db' l hc ha j =
      let c = hc j.channel j.channel_row in
      let a = ha j.account j.account_row j.account_id in
      record {
        channel = c.0;
        channel_row = c.1;
        channel_id = c.2 ∙ j.channel_id;
        account = a.0;
        account_row = a.1;
        account_id = a.2 ∙ j.account_id;
        tenant = c.3 ∙ j.tenant ∙ sym a.3;
      }

module _ (f : Float64) where
  -- A parser mode that ingest knows, and thresholds between 0 and 1 in their order.
  pub record IsConfigured (c : Channel f.F) : Type 0 where
    pub commands : List Text
    pub mode : Text
    pub parser : c.parser_config ≡ some (commands, mode)
    pub known : (mode ≡ []) ⊎ In mode valid_modes
    pub high : f.F
    pub medium : f.F
    pub thresholds : c.confidence_thresholds ≡ some (some high, some medium)
    pub ordered : f.ge high medium ≡ true
    pub not_above : f.ge (f.tenths 10) high ≡ true
    pub not_below : f.ge medium (f.tenths 0) ≡ true

  pub record IsSound (db : Db f.F) : Type 0 where
    pub channel_ids : Distinct (λ c. c.id) db.channels
    pub account_ids : Distinct (λ a. a.id) db.accounts
    pub joined : All (Joined db) db.links
    pub configured : All IsConfigured db.channels

  pub valid_parser_lem :
      (o : Option (List Text × Text))
      → valid_parser o ≡ true
      → (commands : List Text) × (mode : Text) × (o ≡ some (commands, mode))
        × ((mode ≡ []) ⊎ In mode valid_modes)
  unfolding valid_parser
  valid_parser_lem none e = cc e
  valid_parser_lem (some (commands, [])) e = (commands, [], refl, inl refl)
  valid_parser_lem (some (commands, c ∷ mode)) e =
      (commands, c ∷ mode, refl, inr (member-In (c ∷ mode) valid_modes e))

  pub valid_thresholds_lem :
      (o : Option (Option f.F × Option f.F))
      → valid_thresholds f o ≡ true
      → (high : f.F) × (medium : f.F) × (o ≡ some (some high, some medium))
        × (f.ge high medium ≡ true)
        × (f.ge (f.tenths 10) high ≡ true)
        × (f.ge medium (f.tenths 0) ≡ true)
  unfolding valid_thresholds
  valid_thresholds_lem none e = cc e
  valid_thresholds_lem (some (none, medium)) e = cc e
  valid_thresholds_lem (some (some high, none)) e = cc e
  valid_thresholds_lem (some (some high, some medium)) e =
      (high, medium, refl, ground (arith, e), ground (arith, e), ground (arith, e))

  pub configured_lem :
      (c : Channel f.F)
      → valid_parser c.parser_config ≡ true
      → valid_thresholds f c.confidence_thresholds ≡ true
      → IsConfigured c
  configured_lem c p t =
      let a = valid_parser_lem c.parser_config p in
      let b = valid_thresholds_lem c.confidence_thresholds t in
      record {
        commands = a.0;
        mode = a.1;
        parser = a.2;
        known = a.3;
        high = b.0;
        medium = b.1;
        thresholds = b.2;
        ordered = b.3;
        not_above = b.4;
        not_below = b.5;
      }
