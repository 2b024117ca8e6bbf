-- ===== src/Tokenizer/Utf8/Stream.antt =====
-- crates/rllm-tokenizer/src/detokenizer.rs: `find_safe_utf8_boundary` and `decode_utf8_partial` on a
-- stream of UTF-8 characters.
use mathlib.Core.List.{reverse, reverse-append, reverse-cons, append-nil, append_assoc}
use r_llm.Shared.{
  ℕ, suc, ◌≤◌, ◌<◌, true, false, List, [], ◌∷◌, ◌++◌, ◌≡◌, refl, sym, ◌∙◌, ap, ◌⊎◌, inl, inr, arith,
  All, length, length-append, take, drop, Bool-cases, subst, take-length-append, drop-length-append,
}
use r_llm.Tokenizer.Utf8.{
  utf8_sequence_length, last_is_clean, scan_back, find_safe_utf8_boundary, decode_utf8_partial,
}

abbrev IsContinuation : ℕ → Type 0
IsContinuation b = (0x80 ≤ b) × (b < 0xC0)

abbrev IsLead : ℕ → Type 0
IsLead b = (b < 0x80) ⊎ ((0xC0 ≤ b) × (b ≤ 0xF7))

-- UTF-8: the ranges of the lead bytes of characters of one to four bytes, with the number `n` of
-- the bytes that follow.
abbrev pub AsksFor : ℕ → ℕ → Type 0
AsksFor lead n =
    ((lead < 0x80) × (n ≡ 0))
    ⊎ ((0xC0 ≤ lead) × (lead < 0xE0) × (n ≡ 1))
    ⊎ ((0xE0 ≤ lead) × (lead < 0xF0) × (n ≡ 2))
    ⊎ ((0xF0 ≤ lead) × (lead < 0xF8) × (n ≡ 3))

-- A whole character: a lead byte and the continuation bytes that it asks for.
pub record IsCharacter (lead : ℕ) (rest : List ℕ) : Type 0 where
  pub whole : AsksFor lead (length rest)
  pub continued : All IsContinuation rest

-- The first bytes of a character that is not whole.
pub record IsBegun (lead : ℕ) (rest : List ℕ) : Type 0 where
  pub asked : ℕ
  pub asks : AsksFor lead asked
  pub short : length rest < asked
  pub continued : All IsContinuation rest

asks-IsLead : (lead n : ℕ) → AsksFor lead n → IsLead lead
asks-IsLead lead n h = ground (arith, h)

asks-length : (lead n : ℕ) → AsksFor lead n → utf8_sequence_length lead ≡ suc n
unfolding utf8_sequence_length
asks-length lead n h = ground (arith, h)

-- The bytes of characters, each a lead byte and the rest.
abbrev bytes_of : List (ℕ × List ℕ) → List ℕ
bytes_of [] = []
bytes_of ((lead, rest) ∷ cs) = (lead ∷ rest) ++ bytes_of cs

abbrev AreCharacters : List (ℕ × List ℕ) → Type 0
AreCharacters [] = Unit {0}
AreCharacters ((lead, rest) ∷ cs) = IsCharacter lead rest × AreCharacters cs

-- What has come of the next character: nothing, or its first bytes.
abbrev IsTail : List ℕ → Type 0
IsTail [] = Unit {0}
IsTail (lead ∷ rest) = IsBegun lead rest

All-append :
    (xs ys : List ℕ) → All IsContinuation xs → All IsContinuation ys → All IsContinuation (xs ++ ys)
All-append [] ys h k = k
All-append (x ∷ xs) ys h k = (h.0, All-append xs ys h.1 k)

All-reverse : (xs : List ℕ) → All IsContinuation xs → All IsContinuation (reverse xs)
All-reverse [] h = tt
All-reverse (x ∷ xs) h =
    rw (reverse-cons x xs) (All-append (reverse xs) (x ∷ []) (All-reverse xs h.1) (h.0, tt))

length-reverse : (xs : List ℕ) → length (reverse xs) ≡ length xs
length-reverse [] = refl
length-reverse (x ∷ xs) =
    omega
      (arith, ap length (reverse-cons x xs), length-append (reverse xs) (x ∷ []), length-reverse xs)

scan_back-continued :
    (len : ℕ) (xs rest : List ℕ)
    → All IsContinuation xs
    → scan_back len (xs ++ rest) ≡ scan_back len rest
unfolding scan_back
scan_back-continued len [] rest h = refl
scan_back-continued len (x ∷ xs) rest ((a, b), h) =
    ground (arith, scan_back-continued len xs rest h)

reverse-bytes :
    (front : List ℕ) (lead : ℕ) (rest : List ℕ)
    → reverse (front ++ lead ∷ rest) ≡ reverse rest ++ lead ∷ reverse front
reverse-bytes front lead rest =
    reverse-append front (lead ∷ rest)
    ∙ ap (λ l. l ++ reverse front) (reverse-cons lead rest)
    ∙ append_assoc (reverse rest) (lead ∷ []) (reverse front)

-- The loop stops at the last lead byte.
boundary_at_lead :
    (front : List ℕ) (lead : ℕ) (rest : List ℕ)
    → All IsContinuation rest
    → find_safe_utf8_boundary (front ++ lead ∷ rest)
      ≡ scan_back (length (front ++ lead ∷ rest)) (lead ∷ reverse front)
unfolding find_safe_utf8_boundary
boundary_at_lead front lead rest h =
    rw (reverse-bytes front lead rest)
      (scan_back-continued _ (reverse rest) (lead ∷ reverse front) (All-reverse rest h))

boundary_begun :
    (front : List ℕ) (lead : ℕ) (rest : List ℕ)
    → IsBegun lead rest
    → find_safe_utf8_boundary (front ++ lead ∷ rest) ≡ length front
unfolding scan_back
boundary_begun front lead rest b =
    let first = asks-IsLead lead b.asked b.asks in
    let needed = asks-length lead b.asked b.asks in
    boundary_at_lead front lead rest b.continued
    ∙ ground
        (arith, first, needed, b.short, length-reverse front, length-append front (lead ∷ rest))

boundary_whole :
    (front : List ℕ) (lead : ℕ) (rest : List ℕ)
    → IsCharacter lead rest
    → find_safe_utf8_boundary (front ++ lead ∷ rest) ≡ length (front ++ lead ∷ rest)
unfolding scan_back
boundary_whole front lead rest c =
    let first = asks-IsLead lead (length rest) c.whole in
    let needed = asks-length lead (length rest) c.whole in
    boundary_at_lead front lead rest c.continued
    ∙ ground (arith, first, needed, length-reverse front, length-append front (lead ∷ rest))

-- The last of some characters.
last-IsCharacter :
    (c : ℕ × List ℕ) (cs : List (ℕ × List ℕ))
    → AreCharacters (c ∷ cs)
    → (front : List ℕ) × (lead : ℕ) × (rest : List ℕ) × (bytes_of (c ∷ cs) ≡ front ++ lead ∷ rest)
      × IsCharacter lead rest
last-IsCharacter (lead, rest) [] (h, _) = ([], lead, rest, append-nil (lead ∷ rest), h)
last-IsCharacter (lead, rest) (c ∷ cs) (h, hs) =
    let (front, l, r, e, k) = last-IsCharacter c cs hs in
    (
      (lead ∷ rest) ++ front,
      l,
      r,
      ap (λ l'. (lead ∷ rest) ++ l') e ∙ sym (append_assoc (lead ∷ rest) front (l ∷ r)),
      k,
    )

-- In whole characters, of one to four bytes as the ranges of UTF-8 lead bytes ask, and then
-- nothing or the first bytes of a character that is not whole, the safe boundary is behind the
-- last whole character.
pub boundary-characters :
    (cs : List (ℕ × List ℕ)) (t : List ℕ)
    → AreCharacters cs
    → IsTail t
    → find_safe_utf8_boundary (bytes_of cs ++ t) ≡ length (bytes_of cs)
unfolding find_safe_utf8_boundary scan_back
boundary-characters [] [] h k = refl
boundary-characters (c ∷ cs) [] h k =
    let (front, lead, rest, e, w) = last-IsCharacter c cs h in
    subst (λ bs. find_safe_utf8_boundary (bs ++ []) ≡ length bs) (sym e)
      (rw (append-nil (front ++ lead ∷ rest)) (boundary_whole front lead rest w))
boundary-characters cs (lead ∷ rest) h b = boundary_begun (bytes_of cs) lead rest b

last_is_clean-append :
    (xs : List ℕ) (y : ℕ) (ys : List ℕ) → last_is_clean (xs ++ y ∷ ys) ≡ last_is_clean (y ∷ ys)
unfolding last_is_clean
last_is_clean-append [] y ys = refl
last_is_clean-append (x ∷ []) y ys = refl
last_is_clean-append (x ∷ x' ∷ xs) y ys = last_is_clean-append (x' ∷ xs) y ys

continued-unclean :
    (b c : ℕ) (bs : List ℕ) → All IsContinuation (c ∷ bs) → last_is_clean (b ∷ c ∷ bs) ≡ false
unfolding last_is_clean
continued-unclean b c [] ((l, u), _) = ground arith
continued-unclean b c (d ∷ bs) (_, h) = continued-unclean c d bs h

tail-unclean :
    (lead : ℕ) (rest : List ℕ) → IsTail (lead ∷ rest) → last_is_clean (lead ∷ rest) ≡ false
unfolding last_is_clean
tail-unclean lead [] b = ground (arith, b.asks, b.short)
tail-unclean lead (c ∷ rest) b = continued-unclean lead c rest b.continued

clean-whole :
    (cs : List (ℕ × List ℕ)) (t : List ℕ)
    → IsTail t
    → last_is_clean (bytes_of cs ++ t) ≡ true
    → t ≡ []
clean-whole cs [] h k = refl
clean-whole cs (lead ∷ rest) h k =
    let e = last_is_clean-append (bytes_of cs) lead rest ∙ tail-unclean lead rest h in absurd (cc)

decoded {ℓ} :
    {S : Type ℓ} (f : List ℕ → S) (bytes : List ℕ) (cs : List (ℕ × List ℕ)) (t : List ℕ)
    → AreCharacters cs
    → IsTail t
    → bytes ≡ bytes_of cs ++ t
    → ◌≡◌ {A = S × List ℕ}
        (f (take (find_safe_utf8_boundary bytes) bytes), drop (find_safe_utf8_boundary bytes) bytes)
        (f (bytes_of cs), t)
decoded f bytes cs t h k e =
    rw
      (
        e,
        boundary-characters cs t h k,
        take-length-append (bytes_of cs) t,
        drop-length-append (bytes_of cs) t,
      )
      refl

-- If the kept bytes and the new ones are together whole characters, of one to four bytes as the
-- ranges of UTF-8 lead bytes ask, and then nothing or the first bytes of a character that is not
-- whole, the decoder decodes exactly the whole characters and keeps exactly the others.
pub decode-characters {ℓ} :
    {S : Type ℓ} (from_utf8_lossy : List ℕ → S) (partial_bytes new_bytes : List ℕ)
    (cs : List (ℕ × List ℕ)) (t : List ℕ)
    → AreCharacters cs
    → IsTail t
    → partial_bytes ++ new_bytes ≡ bytes_of cs ++ t
    → decode_utf8_partial from_utf8_lossy partial_bytes new_bytes
      ≡ (from_utf8_lossy (bytes_of cs), t)
unfolding decode_utf8_partial
decode-characters f [] new_bytes cs t h k e = elim (Bool-cases (last_is_clean new_bytes)) [
  | inl clean ↦
      let none_left = clean-whole cs t k (subst (λ l. last_is_clean l ≡ true) e clean) in
      let all : new_bytes ≡ bytes_of cs =
        e ∙ ap (λ l. bytes_of cs ++ l) none_left ∙ append-nil (bytes_of cs) in
      rw (clean, none_left, all) refl
  | inr unclean ↦ rw unclean (decoded f new_bytes cs t h k e)
]
decode-characters f (p ∷ partial_bytes) new_bytes cs t h k e =
    decoded f (p ∷ partial_bytes ++ new_bytes) cs t h k e
