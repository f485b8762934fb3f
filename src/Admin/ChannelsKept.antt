-- ===== src/Admin/ChannelsKept.antt =====
-- The calls of the channels service keep the tables sound.
use fieldwatchai_comms_openk.Prelude.{
  ◌⊎◌, ℕ, ◌≡◌, refl, sym, ◌∙◌, Bool, true, false, not, ◌&&◌, Option, none, some, List, [], arith,
  find, find-some, In, ==_eq, comparable_nat,
}
use fieldwatchai_comms_openk.Policy.Float.{Float64}
use fieldwatchai_comms_openk.Store.{Text, Account, Channel, ChannelAccount, Db, Result, ok, err}
use fieldwatchai_comms_openk.Store.Select.{one}
use fieldwatchai_comms_openk.World.{Job, ◌>>=◌, pure, query}
use fieldwatchai_comms_openk.World.Triple.{
  Cond, Triple, pure-Triple, bind-Triple, if-Triple, query-Triple,
}
use fieldwatchai_comms_openk.Store.Accounts.{get_account_for_tenant, is_account}
use fieldwatchai_comms_openk.Store.Channels.{
  coalesce, ChannelChange, changed_channel, is_channel, get_channel_for_tenant, create_channel,
  update_channel, link_account_to_channel, unlink_account_from_channel,
}
use fieldwatchai_comms_openk.Admin.{Deps, invalid, Outcome, done, failed}
use fieldwatchai_comms_openk.Parser.{trim_space}
use fieldwatchai_comms_openk.Admin.Accounts.{
  is_blank, member, answered, answered_or_internal, removed,
}
use fieldwatchai_comms_openk.Admin.Channels.{
  ChannelView, LinkInput, ChannelInput, ChannelUpdate, valid_parser, valid_thresholds, get_channel,
  link_loaded, link_found, link, unlink_found, unlink, new_channel, change_channel,
}
use fieldwatchai_comms_openk.Admin.Sound.{
  valid_parser_lem, valid_thresholds_lem, Joined, IsConfigured, IsSound, configured_lem,
}
use fieldwatchai_comms_openk.Admin.KeptLinks.{
  create_channel-IsSound, update_channel-IsSound, link_account_to_channel-IsSound,
  unlink_account_from_channel-IsSound,
}
use fieldwatchai_comms_openk.Admin.Keeping.{Sound, Keeps, new_id-Keeps, ask-Keeps, pure-Keeps}
use fieldwatchai_comms_openk.Admin.Channels.{
  valid_modes, channel_view_of, is_valid_input, channel_row, is_valid_update, channel_change,
  parser_or_default, thresholds_or_default, parser_change, thresholds_change, all_of,
  valid_directions, policy_of, valid_reply_policies,
}

last_two : (a b c d : Bool) → (a && b && c && d) ≡ true → (c ≡ true) × (d ≡ true)
last_two true true true true e = (refl, refl)
last_two true true true false e = cc e
last_two true true false d e = cc e
last_two true false c d e = cc e
last_two false b c d e = cc e

module _ (f : Float64) (d : Deps f) where
  parser_kept :
      (pc : Option (Option (List Text × Text))) (c : Channel f.F)
      → all_of f d valid_parser pc ≡ true
      → IsConfigured f c
      → (commands : List Text) × (mode : Text) × (coalesce pc c.parser_config
          ≡ some (commands, mode))
        × ((mode ≡ []) ⊎ In mode valid_modes)
  parser_kept none c e h = (h.commands, h.mode, h.parser, h.known)
  parser_kept (some v) c e h = valid_parser_lem f v e

  thresholds_kept :
      (tc : Option (Option (Option f.F × Option f.F))) (c : Channel f.F)
      → all_of f d (valid_thresholds f) tc ≡ true
      → IsConfigured f c
      → (high : f.F) × (medium : f.F) × (coalesce tc c.confidence_thresholds
          ≡ some (some high, some medium))
        × (f.ge high medium ≡ true)
        × (f.ge (f.tenths 10) high ≡ true)
        × (f.ge medium (f.tenths 0) ≡ true)
  thresholds_kept none c e h = (h.high, h.medium, h.thresholds, h.ordered, h.not_above, h.not_below)
  thresholds_kept (some v) c e h = valid_thresholds_lem f v e

  reconfigured :
      (change : ChannelChange f.F)
      → all_of f d valid_parser change.parser_config ≡ true
      → all_of f d (valid_thresholds f) change.confidence_thresholds ≡ true
      → (c : Channel f.F) → IsConfigured f c
      → IsConfigured f (changed_channel change c)
  unfolding changed_channel
  reconfigured change p t c h =
      let a = parser_kept change.parser_config c p h in
      let b = thresholds_kept change.confidence_thresholds c t h in
      record {
        commands = a.0;
        mode = a.1;
        parser = a.2;
        known = a.3;
        high = b.0;
        medium = b.1;
        thresholds = b.2;
        ordered = b.3;
        not_above = b.4;
        not_below = b.5;
      }

  input_lem :
      (in_ : ChannelInput)
      → is_valid_input f d in_ ≡ true
      → (valid_parser (parser_or_default f d in_.parser_config) ≡ true)
        × (valid_thresholds f (thresholds_or_default f d in_.confidence_thresholds) ≡ true)
  unfolding is_valid_input
  input_lem in_ e =
      last_two (not (is_blank (trim_space in_.name)))
        (member (policy_of f d in_) valid_reply_policies) _ _ e

  update_lem :
      (in_ : ChannelUpdate)
      → is_valid_update f d in_ ≡ true
      → (all_of f d valid_parser (parser_change f d in_.parser_config) ≡ true)
        × (all_of f d (valid_thresholds f) (thresholds_change f d in_.confidence_thresholds) ≡ true)
  unfolding is_valid_update
  update_lem in_ e =
      last_two (all_of f d (λ n. not (is_blank (trim_space n))) in_.name)
        (all_of f d (λ p. member p valid_reply_policies) in_.reply_policy) _ _ e

  pub new_channel-Keeps : (in_ : ChannelInput) → Keeps f d (new_channel f d in_)
  unfolding new_channel channel_row
  new_channel-Keeps in_ =
      if-Triple (is_valid_input f d in_) _ (pure (failed invalid))
        (λ e.
          new_id-Keeps f d
            (λ i.
              query (create_channel (channel_row f d in_ i))
              >>= (λ r. pure (answered_or_internal channel_view_of r)))
            (λ i.
              ask-Keeps f d (create_channel (channel_row f d in_ i))
                (answered_or_internal channel_view_of)
                (λ db s.
                  create_channel-IsSound f (channel_row f d in_ i) db
                    (configured_lem f (channel_row f d in_ i) (input_lem in_ e).0
                      (input_lem in_ e).1)
                    s)))
        (λ e. pure-Keeps f d (failed invalid))

  pub change_channel-Keeps :
      (id t : ℕ) (in_ : ChannelUpdate) → Keeps f d (change_channel f d id t in_)
  unfolding change_channel channel_change
  change_channel-Keeps id t in_ =
      if-Triple (is_valid_update f d in_) _ (pure (failed invalid))
        (λ e.
          ask-Keeps f d (update_channel id t (channel_change f d in_)) (answered channel_view_of)
            (λ db s.
              update_channel-IsSound f id t (channel_change f d in_) db
                (reconfigured (channel_change f d in_) (update_lem in_ e).0 (update_lem in_ e).1)
                s))
        (λ e. pure-Keeps f d (failed invalid))

  -- What the look-up of a channel has found.
  abbrev Row : ℕ → ℕ → Result (Channel f.F) → Cond f.F
  Row id t (err e) db jobs = IsSound f db
  Row id t (ok c) db jobs = IsSound f db × In c db.channels × (c.id ≡ id) × (c.tenant_id ≡ t)

  abbrev Found : ℕ → ℕ → Outcome (ChannelView f.F) → Cond f.F
  Found id t (failed e) db jobs = IsSound f db
  Found id t (done v) db jobs =
      IsSound f db × ((c : Channel f.F) × In c db.channels × (c.id ≡ id) × (c.tenant_id ≡ t))

  row_lem :
      (id t : ℕ) (db : Db f.F) (jobs : List Job)
      → IsSound f db
      → (o : Option (Channel f.F)) → find (is_channel id t) db.channels ≡ o
      → Row id t (one o) db jobs
  row_lem id t db jobs s none e = s
  row_lem id t db jobs s (some c) e =
      let r = find-some (is_channel id t) db.channels c e in
      (s, r.0, ==_eq c.id id (ground (arith, r.1)), ==_eq c.tenant_id t (ground (arith, r.1)))

  found_lem :
      (id t : ℕ) (r : Result (Channel f.F))
      → Triple (Row id t r) (pure (answered channel_view_of r)) (Found id t)
  unfolding answered
  found_lem id t (ok c) = pure-Triple _ (λ db jobs h. (h.0, (c, h.1, h.2, h.3)))
  found_lem id t (err e) = pure-Triple _ (λ db jobs s. s)

  get_channel-Found : (id t : ℕ) → Triple (Sound f d) (get_channel f d id t) (Found id t)
  unfolding get_channel get_channel_for_tenant
  get_channel-Found id t =
      bind-Triple (Row id t) (query (get_channel_for_tenant id t))
        (λ r. pure (answered channel_view_of r))
        (query-Triple (get_channel_for_tenant id t) (λ db jobs s. s)
          (λ db jobs s. row_lem id t db jobs s (find (is_channel id t) db.channels) refl))
        (found_lem id t)

  -- The account of a link, beside its channel.
  abbrev Both : ChannelAccount → ℕ → Result Account → Cond f.F
  Both l t (err e) db jobs = IsSound f db
  Both l t (ok a) db jobs = IsSound f db × Joined db l

  both_lem :
      (l : ChannelAccount) (t : ℕ) (db : Db f.F) (jobs : List Job)
      → IsSound f db
        × ((c : Channel f.F) × In c db.channels × (c.id ≡ l.channel_id) × (c.tenant_id ≡ t))
      → (o : Option Account) → find (is_account l.account_id t) db.accounts ≡ o
      → Both l t (one o) db jobs
  both_lem l t db jobs h none e = h.0
  both_lem l t db jobs (s, (c, i, e1, e2)) (some a) e =
      let r = find-some (is_account l.account_id t) db.accounts a e in
      let of_tenant : a.tenant_id ≡ t = ==_eq a.tenant_id t (ground (arith, r.1)) in
      (
        s,
        record {
          channel = c;
          channel_row = i;
          channel_id = e1;
          account = a;
          account_row = r.0;
          account_id = ==_eq a.id l.account_id (ground (arith, r.1));
          tenant = e2 ∙ sym of_tenant;
        },
      )

  link_loaded-Keeps :
      (l : ChannelAccount) (t : ℕ) (r : Result Account)
      → Triple (Both l t r) (link_loaded f d l r) (λ o. Sound f d)
  unfolding link_loaded
  link_loaded-Keeps l t (err e) = pure-Triple _ (λ db jobs s. s)
  link_loaded-Keeps l t (ok a) =
      bind-Triple (λ r. Sound f d) (query (link_account_to_channel l))
        (λ r. pure (answered_or_internal (λ k. k) r))
        (query-Triple (link_account_to_channel l) (λ db jobs h. h.0)
          (λ db jobs h. link_account_to_channel-IsSound f l db h.1 h.0))
        (λ r. pure-Triple _ (λ db jobs s. s))

  link_found-Keeps :
      (in_ : LinkInput) (o : Outcome (ChannelView f.F))
      → Triple (Found in_.link.channel_id in_.tenant_id o) (link_found f d in_ o) (λ r. Sound f d)
  unfolding link_found get_account_for_tenant
  link_found-Keeps in_ (failed e) = pure-Triple _ (λ db jobs s. s)
  link_found-Keeps in_ (done v) =
      bind-Triple (Both in_.link in_.tenant_id)
        (query (get_account_for_tenant in_.link.account_id in_.tenant_id))
        (link_loaded f d in_.link)
        (query-Triple (get_account_for_tenant in_.link.account_id in_.tenant_id) (λ db jobs h. h.0)
          (λ db jobs h.
            both_lem in_.link in_.tenant_id db jobs h
              (find (is_account in_.link.account_id in_.tenant_id) db.accounts) refl))
        (link_loaded-Keeps in_.link in_.tenant_id)

  pub link-Keeps : (in_ : LinkInput) → Keeps f d (link f d in_)
  unfolding link
  link-Keeps in_ =
      if-Triple (member in_.link.direction valid_directions) _ (pure (failed invalid))
        (λ e.
          bind-Triple (Found in_.link.channel_id in_.tenant_id)
            (get_channel f d in_.link.channel_id in_.tenant_id) (link_found f d in_)
            (get_channel-Found in_.link.channel_id in_.tenant_id) (link_found-Keeps in_))
        (λ e. pure-Keeps f d (failed invalid))

  unlink_found-Keeps :
      (channel_id account_id t : ℕ) (o : Outcome (ChannelView f.F))
      → Triple (Found channel_id t o) (unlink_found f d channel_id account_id o) (λ r. Sound f d)
  unfolding unlink_found
  unlink_found-Keeps c a t (failed e) = pure-Triple _ (λ db jobs s. s)
  unlink_found-Keeps c a t (done v) =
      bind-Triple (λ r. Sound f d) (query (unlink_account_from_channel c a)) (λ r. pure (removed r))
        (query-Triple (unlink_account_from_channel c a) (λ db jobs h. h.0)
          (λ db jobs h. unlink_account_from_channel-IsSound f c a db h.0))
        (λ r. pure-Triple _ (λ db jobs s. s))

  pub unlink-Keeps : (channel_id account_id t : ℕ) → Keeps f d (unlink f d channel_id account_id t)
  unfolding unlink
  unlink-Keeps c a t =
      bind-Triple (Found c t) (get_channel f d c t) (unlink_found f d c a) (get_channel-Found c t)
        (unlink_found-Keeps c a t)
