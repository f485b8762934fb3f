-- ===== src/Replay/Rebuild.antt =====
-- A replayed forward against the forward that ingest has built.
use fieldwatchai_comms_openk.Prelude.{
  ℕ, ◌≡◌, ◌≢◌, refl, ap, Option, none, some, List, [], ◌∷◌, ◌==◌, ==_eq, comparable_nat, Bool-cases,
  inl, inr,
}
use fieldwatchai_comms_openk.Canonical
use fieldwatchai_comms_openk.Canonical.{Location, Attachment}
use fieldwatchai_comms_openk.Policy.{Action}
use fieldwatchai_comms_openk.Policy.Float.{Float64}
use fieldwatchai_comms_openk.Store.{Text, Parsed, Account}
use fieldwatchai_comms_openk.Ingest.Base.{
  Deps, ChannelCtx, message_row, build_forward, text_or_null, deref, ewkt_point, attachments_json,
  received_at,
}
use fieldwatchai_comms_openk.Replay.{
  Reading, rebuild_forward, location_of, location_of_coordinates, stored_json, contact_of, nonempty,
}

deref-text_or_null : (s : Text) → deref (text_or_null s) ≡ s
unfolding deref text_or_null
deref-text_or_null [] = refl
deref-text_or_null (c ∷ s) = refl

contact_of_lem : (c : Option ℕ) → c ≢ some 0 → contact_of c ≡ c
contact_of_lem none h = refl
contact_of_lem (some i) h = elim (Bool-cases (i == 0)) [
  | inl e ↦ absurd (h (ap some (==_eq i 0 e)))
  | inr e ↦ rw e refl
]

nonempty_lem : (s : Text) → s ≢ [] → nonempty (some s) ≡ some s
nonempty_lem [] h = absurd (h refl)
nonempty_lem (c ∷ s) h = refl

module _ (f : Float64) (d : Deps f) (r : Reading) where
  stored-attachments_json :
      ((a : Attachment) (atts : List Attachment)
        → r.json_text (d.marshal_attachments (a ∷ atts)) ≢ [])
      → (atts : List Attachment)
      → nonempty (stored_json r (attachments_json f d atts))
        ≡ stored_json r (attachments_json f d atts)
  unfolding attachments_json
  stored-attachments_json h [] = refl
  stored-attachments_json h (a ∷ atts) =
      nonempty_lem (r.json_text (d.marshal_attachments (a ∷ atts))) (h a atts)

  -- The location as it is read back, each coordinate by itself.
  abbrev pub located : (Text → Text) → Option Location → Option Location
  located rounded none = none
  located rounded (some l) = some (record { lat = rounded l.lat; lng = rounded l.lng })

  location_of-ewkt_point :
      (rounded : Text → Text) (o : Option Location)
      → ((l : Location)
          → o ≡ some l
          → r.coordinates (record { x = l.lng; y = l.lat }) ≡ rounded l.lng ∷ rounded l.lat ∷ [])
      → location_of r (ewkt_point o) ≡ located rounded o
  unfolding location_of location_of_coordinates ewkt_point
  location_of-ewkt_point rounded none h = refl
  location_of-ewkt_point rounded (some l) h = rw (h l refl) refl

  -- Take the row that ingest stores of a message, with the type of its account. Let the row's account
  -- be the one that the message was sent to, no resolved contact have the nil id, and the stored JSON
  -- of a list of attachments not be empty; and let the point stored for the location, if there is
  -- one, be read as GeoJSON with the longitude first, each coordinate rounded in some way. Then the
  -- forward built again from the row is the forward that ingest builds of the message, but for three
  -- fields: the attachments are the JSON that the column gives for what was marshalled, latitude and
  -- longitude of the location are those of the message, rounded, and the time is the stored one,
  -- formatted in the zone that the driver gives it and not in UTC.
  pub rebuild_forward-message_row :
      (acct : Account) (ch : ChannelCtx f) (msg : Canonical.Message) (doc : Parsed f.F)
      (action : Action) (id : ℕ) (url : Text) (rounded : Text → Text)
      → doc.contact_id ≢ some 0
      → ((a : Attachment) (atts : List Attachment)
          → r.json_text (d.marshal_attachments (a ∷ atts)) ≢ [])
      → ((l : Location)
          → msg.body.location ≡ some l
          → r.coordinates (record { x = l.lng; y = l.lat }) ≡ rounded l.lng ∷ rounded l.lat ∷ [])
      → rebuild_forward r (record {
        message = message_row f d acct acct.id msg ch doc action id;
        account_type = acct.type;
        workflow_url = url;
      })
        ≡ record (build_forward f d acct ch msg doc id) {
          attachments = stored_json r (attachments_json f d msg.body.attachments);
          location = located rounded msg.body.location;
          received_at = r.zoned_time (received_at f d msg.meta.received_at);
        }
  unfolding rebuild_forward message_row build_forward
  rebuild_forward-message_row acct ch msg doc action id url rounded h k g =
      rw
        (
          deref-text_or_null msg.sender_endpoint,
          contact_of_lem doc.contact_id h,
          stored-attachments_json k msg.body.attachments,
          location_of-ewkt_point rounded msg.body.location g,
        )
        refl
