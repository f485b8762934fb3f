-- ===== src/Outbound/Answer.antt =====
-- What a response of `POST /v1/outbound` says of what has happened.
use fieldwatchai_comms_openk.Prelude.{
  ℕ, ◌≡◌, ◌≢◌, ◌⊎◌, inl, inr, refl, sym, ap, ◌∙◌, subst, arith, ◌<◌, Option, none, some, [], ◌∷◌,
  ◌++◌,
}
use fieldwatchai_comms_openk.Prelude.{if◌then◌else◌}
use fieldwatchai_comms_openk.Store.{Text, Message}
use fieldwatchai_comms_openk.World.{World, M, pure, Send}
use fieldwatchai_comms_openk.World.Cases.{if_lem}
use fieldwatchai_comms_openk.Outbound.Api.{
  Service, Failure, not_found, internal, Outcome, failed, Target, sent_row, contact_target,
  endpoint_target,
}
use fieldwatchai_comms_openk.Outbound.Sending.{Sent}
use fieldwatchai_comms_openk.Outbound.Effect.{Refused, outbound-Sent}
use fieldwatchai_comms_openk.Outbound.Handler.{
  same, is_set, has_recipient, optional_id, RecipientSpec, SendRequest, Error, Response, accepted,
  rejected, status_of, response_of, to_message, to_contact, to_address, to_recipient, with_channel,
  send,
}

module _ {F : Type 0} where
  -- What has happened, by the response.
  abbrev pub Answered : Text → World F → Response → World F → Type 0
  Answered text w (accepted r) v =
      (msg : Send) × (row : Message F) × (v.sends ≡ w.sends ++ msg ∷ [])
      × (v.db ≡ record w.db { messages = row ∷ w.db.messages })
      × (msg.message.to ≡ r.dispatched_to)
      × (msg.message.body ≡ text)
      × (row.id ≡ r.message_id)
      × (row.body_text ≡ text)
      × (row.account_id ≡ some msg.account_id)
  Answered text w (rejected e) v =
      (v.db ≡ w.db)
      × ((v.sends ≡ w.sends)
          ⊎ ((e ≡ Error.dispatch_failed) × ((msg : Send) × (v.sends ≡ w.sends ++ msg ∷ []))))

  refused_lem :
      (text : Text) (w : World F) (out : Outcome) (v : World F)
      → Refused w out v
      → Answered text w (response_of out) v
  unfolding response_of
  refused_lem text w out v (why, e, d, n) =
      subst (λ o. Answered text w (response_of o) v) (sym e) (by_failure why)
    where
      by_failure : (why : Failure) → Answered text w (response_of (failed why)) v
      by_failure Failure.bad_request = (d, inl n)
      by_failure not_found = (d, inl n)
      by_failure internal = (d, inl n)

  sent_lem :
      (s : Service) (tgt : Target) (text : Text) (w : World F) (out : Outcome) (v : World F)
      → Sent s tgt text w out v
      → Answered text w (response_of out) v
  unfolding response_of sent_row
  sent_lem s tgt text w out v (inl r) = refused_lem text w out v r
  sent_lem s tgt text w out v (inr (msg, h, n, inl (e, d))) =
      subst (λ o. Answered text w (response_of o) v) (sym e) (d, inr (refl, (msg, n)))
  sent_lem s tgt text w out v (inr (msg, h, n, inr (id, pmid, e, d))) =
      subst (λ o. Answered text w (response_of o) v) (sym e)
        (
          msg,
          sent_row s tgt text pmid id,
          n,
          d,
          h.to,
          h.body,
          refl,
          refl,
          ap some (sym (h.from ∙ h.named)),
        )

  -- A status that is neither 202 nor one of the server's faults.
  client_fault_lem :
      (text : Text) (w v : World F) (r : Response)
      → Answered text w r v
      → status_of r ≢ 202
      → status_of r < 500
      → (v.db ≡ w.db) × (v.sends ≡ w.sends)
  unfolding status_of
  client_fault_lem text w v (accepted r) h n l = absurd (n refl)
  client_fault_lem text w v (rejected e) (d, inl x) n l = (d, x)
  client_fault_lem text w v (rejected e) (d, inr (q, (msg, x))) n l =
      absurd (late (subst (λ z. status_of (rejected z) < 500) q l))
    where
      late : 502 < 500 → ⊥
      late h = omega arith

module _ {F : Type 0} (s : Service) (parse_uuid : Text → Option ℕ) where
  replied :
      (req : SendRequest) (w : World F) (i : Option ℕ)
      → let r = to_message s parse_uuid req i w in Answered req.text w r.0 r.1
  unfolding to_message
  replied req w none = (refl, inl refl)
  replied req w (some i) = elim (outbound-Sent s i none [] req.text [] w).0 [
    | inl r ↦ refused_lem req.text w _ _ r
    | inr (tgt, h, sent) ↦ sent_lem s tgt req.text w _ _ sent
  ]

  contacted :
      (req : SendRequest) (channel_id : Option ℕ) (w : World F) (i : Option ℕ)
      → let r = to_contact s parse_uuid req channel_id i w in Answered req.text w r.0 r.1
  unfolding to_contact
  contacted req channel_id w none = (refl, inl refl)
  contacted req channel_id w (some i) =
      elim (outbound-Sent s i channel_id [] req.text req.subject w).1 [
        | inl r ↦ refused_lem req.text w _ _ r
        | inr (e, c, h, sent) ↦ sent_lem s (contact_target i e c) req.text w _ _ sent
      ]

  addressed :
      (req : SendRequest) (endpoint : Text) (w : World F) (channel_id : Option ℕ)
      → let r = to_address s parse_uuid req channel_id endpoint w in Answered req.text w r.0 r.1
  unfolding to_address
  addressed req endpoint w none = (refl, inl refl)
  addressed req endpoint w (some i) =
      elim (outbound-Sent s i none endpoint req.text req.subject w).2 [
        | inl r ↦ refused_lem req.text w _ _ r
        | inr (l, c, h, sent) ↦ sent_lem s (endpoint_target l c endpoint) req.text w _ _ sent
      ]

  received :
      (req : SendRequest) (channel_id : Option ℕ) (w : World F) (o : Option RecipientSpec)
      → let r = to_recipient s parse_uuid req channel_id o w in Answered req.text w r.0 r.1
  unfolding to_recipient
  received req channel_id w none = (refl, inl refl)
  received req channel_id w (some o) =
      let P : Response × World F → Type 0 = λ r. Answered req.text w r.0 r.1 in
      let by_id = to_contact s parse_uuid req channel_id (parse_uuid o.contact_id) in
      let both : M F Response = pure (rejected Error.invalid_recipient) in
      let known = if is_set o.endpoint then both else by_id in
      let address = to_address s parse_uuid req channel_id o.endpoint in
      if_lem (is_set o.contact_id) known address P w
        (if_lem (is_set o.endpoint) both by_id P w (refl, inl refl)
          (contacted req channel_id w (parse_uuid o.contact_id)))
        (addressed req o.endpoint w channel_id)

  routed :
      (req : SendRequest) (w : World F) (o : Option (Option ℕ))
      → let r = with_channel s parse_uuid req o w in Answered req.text w r.0 r.1
  unfolding with_channel
  routed req w none = (refl, inl refl)
  routed req w (some channel_id) =
      if_lem (is_set req.in_reply_to_message_id)
        (to_message s parse_uuid req (parse_uuid req.in_reply_to_message_id))
        (to_recipient s parse_uuid req channel_id req.recipient) (λ r. Answered req.text w r.0 r.1)
        w (replied req w (parse_uuid req.in_reply_to_message_id))
        (received req channel_id w req.recipient)

  answered_lem :
      (req : SendRequest) (w : World F)
      → let r = send s parse_uuid (some req) w in Answered req.text w r.0 r.1
  unfolding send
  answered_lem req w =
      if_lem (same (is_set req.in_reply_to_message_id) (has_recipient req.recipient))
        (pure (rejected Error.invalid_target))
        (with_channel s parse_uuid req (optional_id parse_uuid req.channel_id))
        (λ r. Answered req.text w r.0 r.1) w (refl, inl refl) (routed req w _)

  -- A request, whichever statements and remote calls fail. If it is accepted, exactly one message was
  -- sent, with the text of the request and to the address reported, and exactly one row was added, with
  -- the id reported, the text, and the account that sent it. If it is rejected, the database is
  -- unchanged, and nothing was sent, but that one message may have been with `dispatch_failed`; so a
  -- status other than 202 and below 500 says that there was no effect at all.
  pub send-Answered :
      (req : SendRequest) (w : World F)
      → let r = send s parse_uuid (some req) w in
        Answered req.text w r.0 r.1
        × (status_of r.0 ≢ 202 → status_of r.0 < 500 → (r.1.db ≡ w.db) × (r.1.sends ≡ w.sends))
  send-Answered req w = let h = answered_lem req w in (h, client_fault_lem req.text w _ _ h)
