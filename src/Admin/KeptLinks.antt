-- ===== src/Admin/KeptLinks.antt =====
-- Every statement of the channels service keeps the tables sound.
use fieldwatchai_comms_openk.Prelude.{
  ℕ, ◌≡◌, inr, refl, Bool, true, false, not, Option, none, some, List, ◌∷◌, keep, any, find, All,
  ◌==◌, comparable_nat, comparable_list, if◌then◌else◌,
}
use fieldwatchai_comms_openk.Policy.Float.{Float64}
use fieldwatchai_comms_openk.Store.{
  Channel, ChannelAccount, Db, no_rows, unique_violation, foreign_key_violation, Result, ok, err,
}
use fieldwatchai_comms_openk.Store.Select.{set_where}
use fieldwatchai_comms_openk.Store.Accounts.{has_tenant}
use fieldwatchai_comms_openk.Store.Channels.{
  ChannelChange, changed_channel, is_channel, same_pair, is_link, create_channel, update_channel,
  link_account_to_channel, unlink_account_from_channel,
}
use fieldwatchai_comms_openk.Admin.Rows.{new_key, All-keep, Distinct-map, mapped-In, All-set}
use fieldwatchai_comms_openk.Admin.Sound.{Joined, IsConfigured, IsSound}
use fieldwatchai_comms_openk.Admin.Kept.{channels_moved}

module _ (f : Float64) where
  pub create_channel-IsSound :
      (c : Channel f.F) (db : Db f.F)
      → IsConfigured f c
      → IsSound f db
      → IsSound f (create_channel c db).1
  unfolding create_channel
  create_channel-IsSound c db h s = by_tests _ (has_tenant c.tenant_id db) refl
    where
      by_tests :
          (b t : Bool)
          → any (λ d. d.id == c.id) db.channels ≡ b
          → let r : Result (Channel f.F) × Db f.F =
              if b
              then (err unique_violation, db)
              else if t
              then (ok c, record db { channels = c ∷ db.channels })
              else (err foreign_key_violation, db) in
            IsSound f r.1
      by_tests true t e = s
      by_tests false false e = s
      by_tests false true e = record {
        channel_ids = (new_key (λ d. d.id) c.id db.channels e, s.channel_ids);
        account_ids = s.account_ids;
        joined = channels_moved db _ refl (λ d i. (d, inr i, refl, refl)) db.links s.joined;
        configured = (h, s.configured);
      }

  pub update_channel-IsSound :
      (id tenant_id : ℕ) (change : ChannelChange f.F) (db : Db f.F)
      → ((c : Channel f.F) → IsConfigured f c → IsConfigured f (changed_channel change c))
      → IsSound f db
      → IsSound f (update_channel id tenant_id change db).1
  unfolding update_channel changed_channel
  update_channel-IsSound id tenant_id change db h s =
      by_row (find (is_channel id tenant_id) db.channels)
    where
      set : Channel f.F → Channel f.F
      set c = if is_channel id tenant_id c then changed_channel change c else c

      set_id : (c : Channel f.F) (b : Bool) → (if b then changed_channel change c else c).id ≡ c.id
      set_id c true = refl
      set_id c false = refl

      set_tenant :
          (c : Channel f.F) (b : Bool)
          → (if b then changed_channel change c else c).tenant_id ≡ c.tenant_id
      set_tenant c true = refl
      set_tenant c false = refl

      set_configured :
          (c : Channel f.F) (b : Bool)
          → IsConfigured f c
          → IsConfigured f (if b then changed_channel change c else c)
      set_configured c true k = h c k
      set_configured c false k = k

      by_row :
          (o : Option (Channel f.F))
          → let r : Result (Channel f.F) × Db f.F = elim o [
            | none ↦ (err no_rows, db)
            | some c ↦ (
              ok (changed_channel change c),
              record db {
                channels = set_where (is_channel id tenant_id) (changed_channel change) db.channels;
              },
            )
          ] in
            IsSound f r.1
      by_row none = s
      by_row (some c) = record {
        channel_ids =
            Distinct-map (λ c. c.id) set (λ c. set_id c (is_channel id tenant_id c)) db.channels
              s.channel_ids;
        account_ids = s.account_ids;
        joined =
            channels_moved db _ refl
              (λ c i. (
                set c,
                mapped-In set c db.channels i,
                set_id c (is_channel id tenant_id c),
                set_tenant c (is_channel id tenant_id c),
              ))
              db.links s.joined;
        configured =
            All-set (IsConfigured f) set (λ c k. set_configured c (is_channel id tenant_id c) k)
              db.channels s.configured;
      }

  relinked :
      (db : Db f.F) (ls : List ChannelAccount)
      → IsSound f db
      → All (Joined db) ls
      → IsSound f (record db { links = ls })
  relinked db ls s h = record {
    channel_ids = s.channel_ids;
    account_ids = s.account_ids;
    joined = channels_moved db _ refl (λ c i. (c, i, refl, refl)) ls h;
    configured = s.configured;
  }

  pub link_account_to_channel-IsSound :
      (l : ChannelAccount) (db : Db f.F)
      → Joined db l
      → IsSound f db
      → IsSound f (link_account_to_channel l db).1
  unfolding link_account_to_channel
  link_account_to_channel-IsSound l db j s = by_tests _ (any (same_pair l) db.links)
    where
      set_joined : (k : ChannelAccount) (b : Bool) → Joined db k → Joined db (if b then l else k)
      set_joined k true h = j
      set_joined k false h = h

      by_tests :
          (b c : Bool)
          → let r : Result ChannelAccount × Db f.F =
              if b
              then if c
                then (ok l, record db { links = set_where (same_pair l) (λ k. l) db.links })
                else (ok l, record db { links = l ∷ db.links })
              else (err foreign_key_violation, db) in
            IsSound f r.1
      by_tests false c = s
      by_tests true true =
          relinked db _ s
            (All-set (Joined db) _ (λ k h. set_joined k (same_pair l k) h) db.links s.joined)
      by_tests true false = relinked db (l ∷ db.links) s (j, s.joined)

  pub unlink_account_from_channel-IsSound :
      (channel_id account_id : ℕ) (db : Db f.F)
      → IsSound f db
      → IsSound f (unlink_account_from_channel channel_id account_id db).1
  unfolding unlink_account_from_channel
  unlink_account_from_channel-IsSound channel_id account_id db s =
      by_test (any (is_link channel_id account_id) db.links)
    where
      by_test :
          (b : Bool)
          → let r : Result ℕ × Db f.F =
              if b
              then (
                ok 1,
                record db { links = keep (λ l. not (is_link channel_id account_id l)) db.links },
              )
              else (ok 0, db) in
            IsSound f r.1
      by_test true = relinked db _ s (All-keep (Joined db) _ db.links s.joined)
      by_test false = s
