-- ===== src/Relay/Sends.antt =====
-- What one `send` of server.c takes of a buffer and what it leaves.
use outline_multiport_server.Base.{
  ℕ, ◌+◌, ◌-◌, ◌≤◌, ◌≡◌, refl, sym, ap, ◌∙◌, some, [], ◌++◌, Bytes, length, take, drop, take-split,
  length-take, take-length-take, take-take_le, drop-drop, take_append_length, append-nil, ltb,
  arith, Bool-cases, inl, inr, if◌then◌else◌, some-injective, subst, if_true, if_false,
}
use outline_multiport_server.Aead.{Buffer}
use outline_multiport_server.Relay.{pending, store, Sending, took, send_again, send_failed}
use outline_multiport_server.Relay.Sockets.{Sent, first_send, next_send}

-- What is still to be sent.
abbrev pub rest_of : Sent → Bytes
rest_of sent = if sent.all_sent then [] else pending sent.left

pub pending-store : (t : Bytes) (b : Buffer) → take (length t) (store t b).data_bytes ≡ t
pending-store t b = take_append_length (length t) t (drop (length t) b.data_bytes) refl

-- A `send` takes a front of the text, and the rest is what the buffer has for the next one.
pub first_send_lem :
    (sending : Sending) (b : Buffer) (sent : Sent)
    → first_send sending b ≡ some sent
    → sent.taken ++ rest_of sent ≡ take b.len b.data_bytes
unfolding first_send
first_send_lem send_failed b sent h = absurd (cc)
first_send_lem send_again b sent h =
    subst (λ (x : Sent). x.taken ++ rest_of x ≡ take b.len b.data_bytes) (some-injective _ sent h)
      refl
first_send_lem (took n) b sent h = elim (Bool-cases (ltb n b.len)) [
  | inl part ↦
      subst (λ (x : Sent). x.taken ++ rest_of x ≡ take b.len b.data_bytes)
        (some-injective _ sent (sym (if_true _ _ _ part) ∙ h))
        (take-split n b.len b.data_bytes (ground arith))
  | inr whole ↦
      subst (λ (x : Sent). x.taken ++ rest_of x ≡ take b.len b.data_bytes)
        (some-injective _ sent (sym (if_false _ _ _ whole) ∙ h)) (append-nil _)
]

pub next_send_lem :
    (sending : Sending) (b : Buffer) (sent : Sent)
    → next_send sending b ≡ some sent
    → sent.taken ++ rest_of sent ≡ pending b
unfolding next_send
next_send_lem send_failed b sent h = absurd (cc)
next_send_lem send_again b sent h =
    subst (λ (x : Sent). x.taken ++ rest_of x ≡ pending b) (some-injective _ sent h) refl
next_send_lem (took n) b sent h = elim (Bool-cases (ltb n b.len)) [
  | inl part ↦
      let front = drop b.idx b.data_bytes in
      let small : n ≤ b.len = ground arith in
      subst (λ (x : Sent). x.taken ++ rest_of x ≡ pending b)
        (some-injective _ sent (sym (if_true _ _ _ part) ∙ h))
        (ap (λ t. t ++ take (b.len - n) (drop (b.idx + n) b.data_bytes))
            (take-take_le n b.len front small)
          ∙ ap (λ t. take n front ++ take (b.len - n) t) (sym (drop-drop n b.idx b.data_bytes))
          ∙ take-split n b.len front small)
  | inr whole ↦
      subst (λ (x : Sent). x.taken ++ rest_of x ≡ pending b)
        (some-injective _ sent (sym (if_false _ _ _ whole) ∙ h)) (append-nil _)
]

-- A buffer that gives up a front keeps the rest.
pub pending-split :
    (b : Buffer) (n : ℕ)
    → let front = take n (pending b) in
      front ++ pending (record b { idx = b.idx + length front; len = b.len - length front })
      ≡ pending b
pending-split b n =
    let whole = drop b.idx b.data_bytes in
    let k = length (take n (pending b)) in
    let size = length-take n (pending b) in
    let all = length-take b.len whole in
    let small : k ≤ b.len = omega arith in
    ap (λ t. t ++ take (b.len - k) (drop (b.idx + k) b.data_bytes))
      (sym (take-length-take n (pending b)) ∙ take-take_le k b.len whole small)
    ∙ ap (λ t. take k whole ++ take (b.len - k) t) (sym (drop-drop k b.idx b.data_bytes))
    ∙ take-split k b.len whole small
