-- ===== src/Aead/Stream.antt =====
-- The TCP stream of aead.c: `aead_decrypt` on any cut of what a sender sealed.
use outline_multiport_server.Base.{
  ℕ, zero, suc, ◌+◌, ◌-◌, ◌*◌, ◌≤◌, ◌<◌, ◌≡◌, ◌≢◌, refl, sym, ap, ◌∙◌, inl, inr, Bool-cases, List,
  [], ◌∷◌, ◌++◌, Bytes, length, take, drop, length-append, append_assoc, append-nil, drop-drop,
  drop-take, drop_append_length, arith, ◌==◌, if◌then◌else◌, if_true, if_false, subst,
}
use outline_multiport_server.Aead.{
  CryptoLibrary, Buffer, CipherCtx, Sealed, sealed, opened, open_need_more, chunk_size_len,
  chunk_size_mask, aead_chunk_encrypt, aead_chunk_decrypt, CryptoResult, crypto_ok,
  crypto_need_more, buffer_view, LoopEnd, decrypt_loop,
}
use outline_multiport_server.Aead.Chunk.{CryptoLaws, Agree, chunk_encrypt-chunk_decrypt}

abbrev pub concat : List Bytes → Bytes
concat [] = []
concat (p ∷ ps) = p ++ concat ps

-- The texts, sealed one after the other from one nonce, give the bytes and leave the other nonce.
pub data IsWire (C : CryptoLibrary) (e : CipherCtx)
    : Bytes → List Bytes → Bytes → Bytes → Type 0 where
  wire_nil : (n : Bytes) → IsWire C e n [] [] n
  wire_cons :
      (n p c n1 : Bytes) (ps : List Bytes) (w n' : Bytes)
      → 0 < length p
      → length p ≤ chunk_size_mask
      → aead_chunk_encrypt C e p n (length p) ≡ sealed c n1
      → IsWire C e n1 ps w n'
      → IsWire C e n (p ∷ ps) (c ++ w) n'

-- A part of the next chunk, which may be empty.
abbrev pub IsPart : CryptoLibrary → CipherCtx → Bytes → Bytes → Type 0
IsPart C e n tail =
    (p c n1 : Bytes) × (k : ℕ) × (0 < length p)
    × (length p ≤ chunk_size_mask)
    × (aead_chunk_encrypt C e p n (length p) ≡ sealed c n1)
    × (k < length c)
    × (tail ≡ take k c)

-- All that a buffer says it holds is there.
abbrev pub IsFull : Buffer → ℕ → Type 0
IsFull b cidx = length (buffer_view b cidx) ≡ b.len

pub length-zero : (xs : Bytes) → length xs ≡ 0 → xs ≡ []
length-zero [] h = refl
length-zero (x ∷ xs) h = absurd (omega arith)

sealed-injective : (c c' n n' : Bytes) → sealed c n ≡ sealed c' n' → (c ≡ c') × (n ≡ n')
sealed-injective c c' n n' h = (ap text h, ap next h)
  where
    text : Sealed → Bytes
    text (sealed x y) = x
    text _ = []

    next : Sealed → Bytes
    next (sealed x y) = y
    next _ = []

view-advance :
    (b : Buffer) (cidx m : ℕ) (c w : Bytes)
    → buffer_view b cidx ≡ c ++ w
    → length c ≡ m
    → buffer_view (record b { len = b.len - m }) (cidx + m) ≡ w
view-advance b cidx m c w h size =
    ap (λ i. take (b.len - m) (drop i b.data_bytes)) (omega arith)
    ∙ sym (ap (take (b.len - m)) (drop-drop m (b.idx + cidx) b.data_bytes))
    ∙ sym (drop-take m b.len (drop (b.idx + cidx) b.data_bytes))
    ∙ ap (drop m) h
    ∙ drop_append_length m c w size

-- The result for the text of the chunks when the part `tail` of the next one is at hand too.
abbrev pub decided : Bytes → Bytes → CryptoResult
decided text tail =
    if length tail == 0
    then crypto_ok text
    else if length text == 0
    then crypto_need_more
    else crypto_ok text

-- The loop stopped in front of `tail`.
abbrev pub StopsAt : LoopEnd → Bytes → Bytes → Bytes → Type 0
StopsAt r n text tail =
    (r.end_nonce ≡ n)
    × (buffer_view r.end_chunk 0 ≡ tail)
    × (r.end_chunk.len ≡ length tail)
    × (r.end_result ≡ decided text tail)

module _ (C : CryptoLibrary) where
  loop_empty :
      (fuel : ℕ) (d : CipherCtx) (b : Buffer) (cidx : ℕ) (n out : Bytes)
      → b.len ≡ 0
      → StopsAt (decrypt_loop C (suc fuel) d b cidx n out) n out []
  unfolding decrypt_loop
  loop_empty fuel d b cidx n out h = rw h (refl, refl, refl, refl)

  loop_stops :
      (fuel : ℕ) (d : CipherCtx) (b : Buffer) (cidx : ℕ) (n out tail : Bytes)
      → b.len ≢ 0
      → buffer_view b cidx ≡ tail
      → aead_chunk_decrypt C d tail n ≡ open_need_more
      → decrypt_loop C (suc fuel) d b cidx n out ≡ (
          if length out == 0
          then record { end_nonce = n; end_chunk = b; end_result = crypto_need_more }
          else record {
            end_nonce = n;
            end_chunk = record b { idx = b.idx + cidx };
            end_result = crypto_ok out;
          })
  unfolding decrypt_loop
  loop_stops fuel d b cidx n out tail some_bytes view h =
      let short = ap (λ x. aead_chunk_decrypt C d x n) view ∙ h in ground (arith, short)

  loop_more :
      (fuel : ℕ) (d : CipherCtx) (b : Buffer) (cidx : ℕ) (n out tail : Bytes)
      → b.len ≢ 0
      → buffer_view b cidx ≡ tail
      → b.len ≡ length tail
      → (length out ≡ 0 → cidx ≡ 0)
      → aead_chunk_decrypt C d tail n ≡ open_need_more
      → StopsAt (decrypt_loop C (suc fuel) d b cidx n out) n out tail
  loop_more fuel d b cidx n out tail some_bytes view full first h =
      let stops = loop_stops fuel d b cidx n out tail some_bytes view h in
      elim (Bool-cases (length out == 0)) [
        | inl empty ↦
            let start =
              (let same : b.idx + 0 ≡ b.idx + cidx = ground arith in
                ap (λ i. take b.len (drop i b.data_bytes)) same) in
            subst (λ r. StopsAt r n out tail) (sym (stops ∙ if_true (length out == 0) _ _ empty))
              (refl, start ∙ view, full, ground arith)
        | inr more ↦
            let start =
              (let same : b.idx + cidx + 0 ≡ b.idx + cidx = omega arith in
                ap (λ i. take b.len (drop i b.data_bytes)) same) in
            subst (λ r. StopsAt r n out tail) (sym (stops ∙ if_false (length out == 0) _ _ more))
              (refl, start ∙ view, full, ground arith)
      ]

  loop_next :
      (fuel : ℕ) (d : CipherCtx) (b : Buffer) (cidx clen : ℕ) (n n1 out p : Bytes)
      → b.len ≢ 0
      → aead_chunk_decrypt C d (buffer_view b cidx) n ≡ opened p n1 clen
      → decrypt_loop C (suc fuel) d b cidx n out
        ≡ decrypt_loop C fuel d
            (record b { len = clen })
            (cidx + (d.cipher.tag_len * 2 + chunk_size_len + length p))
            n1
            (out ++ p)
  unfolding decrypt_loop
  loop_next fuel d b cidx clen n n1 out p some_bytes h = ground (arith, h)

module _ (C : CryptoLibrary) (laws : CryptoLaws C) where
  -- A part of a chunk is not taken for a chunk.
  part_needs_more :
      (e d : CipherCtx) (n tail : Bytes)
      → Agree e d
      → IsPart C e n tail
      → aead_chunk_decrypt C d tail n ≡ open_need_more
  part_needs_more e d n tail h (p, c, n1, k, some_text, small, sealing, less, eq) =
      let (c', sealing', size, opening, short) =
        chunk_encrypt-chunk_decrypt C laws e d p n h some_text small in
      let same = sealed-injective c c' n1 _ (sym sealing ∙ sealing') in
      ap (λ x. aead_chunk_decrypt C d x n) (eq ∙ ap (take k) same.0)
      ∙ short k (subst (λ x. k < length x) same.0 less)

  pub decrypt_loop-StopsAt :
      (fuel : ℕ) (e d : CipherCtx) (b : Buffer) (cidx : ℕ) (n out tail : Bytes) (ps : List Bytes)
      (w n' : Bytes)
      → Agree e d
      → IsWire C e n ps w n'
      → IsPart C e n' tail
      → buffer_view b cidx ≡ w ++ tail
      → IsFull b cidx
      → b.len < fuel
      → (length out ≡ 0 → cidx ≡ 0)
      → StopsAt (decrypt_loop C fuel d b cidx n out) n' (out ++ concat ps) tail
  decrypt_loop-StopsAt zero e d b cidx n out tail ps w n' h wire part view full enough first =
      absurd (omega arith)
  decrypt_loop-StopsAt (suc fuel) e d b cidx n out tail ps w n' h (wire_nil m) part view full enough
        first =
      subst (λ t. StopsAt (decrypt_loop C (suc fuel) d b cidx m out) m t tail)
        (sym (append-nil out))
        (elim (Bool-cases (b.len == 0)) [
          | inl empty ↦
              let none_left : tail ≡ [] =
                length-zero tail (sym (ap length view) ∙ full ∙ ground arith) in
              subst (StopsAt (decrypt_loop C (suc fuel) d b cidx m out) m out) (sym none_left)
                (loop_empty C fuel d b cidx m out (ground arith))
          | inr more ↦
              loop_more C fuel d b cidx m out tail (ground arith) view (sym full ∙ ap length view)
                first (part_needs_more e d m tail h part)
        ])
  decrypt_loop-StopsAt (suc fuel) e d b cidx n out tail ps w n' h
        (wire_cons m p c n1 qs v k some_text small sealing wire) part view full enough first =
      let (c', sealing', size', opening, short) =
        chunk_encrypt-chunk_decrypt C laws e d p m h some_text small in
      let same = sealed-injective c c' n1 _ (sym sealing ∙ sealing') in
      let size : length c ≡ length p + 34 = ap length same.0 ∙ size' in
      let split = view ∙ append_assoc c v tail in
      let all = length-append c (v ++ tail) in
      let total = sym full ∙ ap length split in
      let used = d.cipher.tag_len * 2 + chunk_size_len + length p in
      let tag = h.tag_d in
      let advance : used ≡ length c = omega arith in
      let opens =
        ap (λ x. aead_chunk_decrypt C d x m) (split ∙ ap (λ y. y ++ (v ++ tail)) same.0)
        ∙ opening (v ++ tail)
        ∙ ap (λ x. opened p x (length (v ++ tail))) (sym same.1) in
      let step = loop_next C fuel d b cidx (length (v ++ tail)) m n1 out p (omega arith) opens in
      let left : b.len - used ≡ length (v ++ tail) = omega arith in
      let view' =
        subst (λ l. buffer_view (record b { len = l }) (cidx + used) ≡ v ++ tail) left
          (view-advance b cidx used c (v ++ tail) split (sym advance)) in
      let longer = length-append out p in
      let next =
        decrypt_loop C fuel d (record b { len = length (v ++ tail) }) (cidx + used) n1 (out ++ p) in
      subst (λ r. StopsAt r n' (out ++ (p ++ concat qs)) tail) (sym step)
        (subst (λ t. StopsAt next n' t tail) (append_assoc out p (concat qs))
          (decrypt_loop-StopsAt fuel e d (record b { len = length (v ++ tail) }) (cidx + used) n1
            (out ++ p) tail qs v n' h wire part view' (ap length view') (omega arith)
            (λ none_yet. absurd (omega arith))))

  -- The bytes of the chunks are more than their texts.
  pub wire_size :
      (e d : CipherCtx) (n : Bytes) (ps : List Bytes) (w n' : Bytes)
      → Agree e d
      → IsWire C e n ps w n'
      → length (concat ps) ≤ length w
  wire_size e d n ps w n' h (wire_nil m) = omega arith
  wire_size e d n ps w n' h (wire_cons m p c n1 qs v k some_text small sealing wire) =
      let (c', sealing', size, opening, short) =
        chunk_encrypt-chunk_decrypt C laws e d p m h some_text small in
      let same = ap length (sealed-injective c c' n1 _ (sym sealing ∙ sealing')).0 in
      let rest = wire_size e d n1 qs v n' h wire in
      let texts = length-append p (concat qs) in let bytes = length-append c v in omega arith
