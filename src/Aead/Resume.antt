-- ===== src/Aead/Resume.antt =====
-- `aead_decrypt` of aead.c on a running TCP stream: each call takes up where the last one stopped.
use outline_multiport_server.Base.{
  ℕ, zero, suc, ◌+◌, ◌≡◌, refl, sym, ap, ◌∙◌, inl, inr, ◌⊎◌, not, Option, none, some, Bool-cases,
  List, [], ◌∷◌, ◌++◌, Bytes, length, take, drop, length-append, take_of_length-le, arith, ◌==◌,
  if◌then◌else◌, if_true, if_false, subst,
}
use outline_multiport_server.PpBloom.{BloomLibrary, PpBloom}
use outline_multiport_server.Aead.{
  CryptoLibrary, Buffer, CipherCtx, CryptoResult, crypto_ok, crypto_need_more, buffer_view, LoopEnd,
  decrypt_loop, take_in, decrypt_end, decrypt_chunks, aead_decrypt, Crypto,
}
use outline_multiport_server.Aead.Chunk.{CryptoLaws, Agree}
use outline_multiport_server.Aead.Stream.{
  concat, IsWire, IsPart, decided, StopsAt, length-zero, decrypt_loop-StopsAt,
}

-- What a context holds of the next chunk.
abbrev pub held : Option Buffer → Bytes
held none = []
held (some b) = buffer_view b 0

abbrev pub IsHeld : Option Buffer → Type 0
IsHeld none = Unit
IsHeld (some b) = length (buffer_view b 0) ≡ b.len

-- The contexts of a running stream in step with a sender, at a nonce and holding some bytes.
pub record Follows (e d : CipherCtx) (n tail : Bytes) : Type 0 where
  pub running : d.init ≡ 2
  pub agree : Agree e d
  pub at_nonce : d.nonce ≡ n
  pub holds : held d.chunk ≡ tail
  pub full : IsHeld d.chunk

take_in_view :
    (o : Option Buffer) (bytes : Bytes)
    → IsHeld o
    → (buffer_view (take_in o bytes) 0 ≡ held o ++ bytes)
      × (length (buffer_view (take_in o bytes) 0) ≡ (take_in o bytes).len)
unfolding take_in
take_in_view none bytes h =
    let all = take_of_length-le (length bytes) bytes (omega arith) in (all, ap length all)
take_in_view (some b) bytes h = elim (Bool-cases (b.len == 0)) [
  | inl empty ↦
      let all = take_of_length-le (length bytes) bytes (omega arith) in
      let none_held = length-zero (buffer_view b 0) (h ∙ ground arith) in
      subst IsTaken (sym (if_true (b.len == 0) _ _ empty))
        (all ∙ ap (λ x. x ++ bytes) (sym none_held), ap length all)
  | inr more ↦
      let start : b.idx + 0 ≡ b.idx = omega arith in
      let kept = ap (λ i. take b.len (drop i b.data_bytes)) (sym start) in
      let size = length-append (take b.len (drop b.idx b.data_bytes)) bytes in
      let size' = ap length kept in
      let all =
        take_of_length-le (b.len + length bytes) (take b.len (drop b.idx b.data_bytes) ++ bytes)
          (omega arith) in
      subst IsTaken (sym (if_false (b.len == 0) _ _ more))
        (all ∙ ap (λ x. x ++ bytes) kept, ap length all ∙ omega arith)
]
  where
    IsTaken : Buffer → Type 0
    IsTaken t = (buffer_view t 0 ≡ buffer_view b 0 ++ bytes) × (length (buffer_view t 0) ≡ t.len)

module _ (C : CryptoLibrary) (B : BloomLibrary) where
  decrypt_end-ok :
      (d : CipherCtx) (bloom : PpBloom B) (n out : Bytes) (c : Buffer)
      → d.init ≡ 2
      → decrypt_end C B d bloom
          (record { end_nonce = n; end_chunk = c; end_result = crypto_ok out })
        ≡ (
          (
            record d { nonce = n; chunk = some (if c.len == 0 then record c { idx = 0 } else c) },
            bloom,
          ),
          crypto_ok out,
        )
  unfolding decrypt_end
  decrypt_end-ok d bloom n out c running = if_false (d.init == 1) _ _ (ground arith)

  decrypt_end-need_more :
      (d : CipherCtx) (bloom : PpBloom B) (n : Bytes) (c : Buffer)
      → decrypt_end C B d bloom
          (record { end_nonce = n; end_chunk = c; end_result = crypto_need_more })
        ≡ ((record d { nonce = n; chunk = some c }, bloom), crypto_need_more)
  unfolding decrypt_end
  decrypt_end-need_more d bloom n c = refl

  abbrev pub Settles :
      CipherCtx → PpBloom B → Bytes → Bytes → Bytes → Crypto C B × CryptoResult → Type 0
  Settles e bloom n text tail ((d', bloom'), result) =
      (result ≡ decided text tail) × Follows e d' n tail × (bloom' ≡ bloom)

  take_zero : (k : ℕ) (xs : Bytes) → k ≡ 0 → take k xs ≡ []
  take_zero zero xs h = refl
  take_zero (suc k) xs h = absurd (omega arith)

  pub reset_view :
      (c : Buffer)
      → buffer_view (if c.len == 0 then record c { idx = 0 } else c) 0 ≡ buffer_view c 0
  reset_view c = elim (Bool-cases (c.len == 0)) [
    | inl empty ↦
        let none : c.len ≡ 0 = ground arith in
        ap (λ x. buffer_view x 0) (if_true (c.len == 0) _ _ empty)
        ∙ take_zero c.len c.data_bytes none
        ∙ sym (take_zero c.len (drop (c.idx + 0) c.data_bytes) none)
    | inr more ↦ ap (λ x. buffer_view x 0) (if_false (c.len == 0) _ _ more)
  ]

  pub reset_len : (c : Buffer) → (if c.len == 0 then record c { idx = 0 } else c).len ≡ c.len
  reset_len c = ground arith

  Settles-ok :
      (e d : CipherCtx) (bloom : PpBloom B) (r : LoopEnd) (n text tail : Bytes)
      → d.init ≡ 2
      → Agree e d
      → StopsAt r n text tail
      → decided text tail ≡ crypto_ok text
      → Settles e bloom n text tail (decrypt_end C B d bloom r)
  Settles-ok e d bloom r n text tail running agree (at_n, view, size, result) ok =
      subst
        (λ x. Settles e bloom n text tail (
          decrypt_end C B d bloom
            (record { end_nonce = r.end_nonce; end_chunk = r.end_chunk; end_result = x })))
        (sym (result ∙ ok))
        (subst (Settles e bloom n text tail)
          (sym (decrypt_end-ok d bloom r.end_nonce text r.end_chunk running))
          (
            sym ok,
            record {
              running = running;
              agree = record {
                same_method = agree.same_method;
                same_hw = agree.same_hw;
                same_key = agree.same_key;
                tag_e = agree.tag_e;
                tag_d = agree.tag_d;
              };
              at_nonce = at_n;
              holds = reset_view r.end_chunk ∙ view;
              full =
                  ap length (reset_view r.end_chunk ∙ view)
                  ∙ sym size
                  ∙ sym (reset_len r.end_chunk);
            },
            refl,
          ))

  Settles-need_more :
      (e d : CipherCtx) (bloom : PpBloom B) (r : LoopEnd) (n text tail : Bytes)
      → d.init ≡ 2
      → Agree e d
      → StopsAt r n text tail
      → decided text tail ≡ crypto_need_more
      → Settles e bloom n text tail (decrypt_end C B d bloom r)
  Settles-need_more e d bloom r n text tail running agree (at_n, view, size, result) more =
      subst
        (λ x. Settles e bloom n text tail (
          decrypt_end C B d bloom
            (record { end_nonce = r.end_nonce; end_chunk = r.end_chunk; end_result = x })))
        (sym (result ∙ more))
        (subst (Settles e bloom n text tail)
          (sym (decrypt_end-need_more d bloom r.end_nonce r.end_chunk))
          (
            sym more,
            record {
              running = running;
              agree = record {
                same_method = agree.same_method;
                same_hw = agree.same_hw;
                same_key = agree.same_key;
                tag_e = agree.tag_e;
                tag_d = agree.tag_d;
              };
              at_nonce = at_n;
              holds = view;
              full = ap length view ∙ sym size;
            },
            refl,
          ))

  decided-cases :
      (text tail : Bytes)
      → (decided text tail ≡ crypto_ok text) ⊎ (decided text tail ≡ crypto_need_more)
  decided-cases text [] = inl refl
  decided-cases [] (x ∷ tail) = inr (ground arith)
  decided-cases (y ∷ text) (x ∷ tail) = inl (ground arith)

  -- How the call ends when the loop stopped in front of `tail`.
  decrypt_end-Settles :
      (e d : CipherCtx) (bloom : PpBloom B) (r : LoopEnd) (n text tail : Bytes)
      → d.init ≡ 2
      → Agree e d
      → StopsAt r n text tail
      → Settles e bloom n text tail (decrypt_end C B d bloom r)
  decrypt_end-Settles e d bloom r n text tail running agree stops = elim (decided-cases text tail) [
    | inl ok ↦ Settles-ok e d bloom r n text tail running agree stops ok
    | inr more ↦ Settles-need_more e d bloom r n text tail running agree stops more
  ]

  -- With ciphers that keep their laws and tags of 16 bytes, a running stream takes any cut of what
  -- a sender in step sealed: when what the context holds and the bytes that arrive are the chunks
  -- of some texts and a part of the next chunk, the call gives the texts joined, keeps that part,
  -- and is in step for the next call. With a part of a chunk and no text it asks for more. The
  -- salts noted stay the same.
  pub aead_decrypt-Follows :
      CryptoLaws C
      → (e d : CipherCtx) (bloom : PpBloom B) (bytes n part tail : Bytes) (ps : List Bytes)
        (w n' : Bytes)
      → Follows e d n part
      → IsWire C e n ps w n'
      → IsPart C e n' tail
      → part ++ bytes ≡ w ++ tail
      → Settles e bloom n' (concat ps) tail (aead_decrypt C B bytes d bloom)
  unfolding aead_decrypt decrypt_chunks
  aead_decrypt-Follows laws e d bloom bytes n part tail ps w n' follows wire next cut =
      let chunk = take_in d.chunk bytes in
      let (view, full) = take_in_view d.chunk bytes follows.full in
      let holding = record d { chunk = some chunk } in
      let agree : Agree e holding = record {
        same_method = follows.agree.same_method;
        same_hw = follows.agree.same_hw;
        same_key = follows.agree.same_key;
        tag_e = follows.agree.tag_e;
        tag_d = follows.agree.tag_d;
      } in
      let r = decrypt_loop C (suc chunk.len) holding chunk 0 d.nonce [] in
      let stops =
        decrypt_loop-StopsAt C laws (suc chunk.len) e holding chunk 0 d.nonce [] tail ps w n' agree
          (subst (λ m. IsWire C e m ps w n') (sym follows.at_nonce) wire) next
          (view ∙ ap (λ x. x ++ bytes) follows.holds ∙ cut) full (omega arith) (λ h. refl) in
      let ends =
        decrypt_end-Settles e holding bloom r n' (concat ps) tail follows.running agree stops in
      subst (Settles e bloom n' (concat ps) tail)
        (sym (if_true (not (d.init == 0)) _ _ (ground arith))) ends
