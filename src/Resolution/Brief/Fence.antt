-- ===== src/Resolution/Brief/Fence.antt =====
-- What is left of a fence's tags in an escaped text.
use autophage.Base.{
  ℕ, zero, suc, ◌-◌, ◌≡◌, refl, inl, inr, Bool, true, false, ◌||◌, [], ◌∷◌, ◌++◌, length, ◌==◌,
  arith, Bool-cases, ap,
}
use autophage.Resolution.Brief.{
  Bytes, fold, starts_with, replace_from, replace_fold, open_tag, close_tag, escaped_open,
  escaped_close, escape_tag,
}

-- Does `old` occur anywhere in a text, but for the case of letters.
unfoldable pub occurs : Bytes → Bytes → Bool
unfolding starts_with
occurs old [] = starts_with old []
occurs old (c ∷ s) = starts_with old (c ∷ s) || occurs old s

-- The text has no byte that folds to this one.
unfoldable pub lacks : ℕ → Bytes → Bool
lacks x [] = true
lacks x (c ∷ s) = elim (fold c == x) [ true ↦ false | false ↦ lacks x s ]

-- A prefix without the replacement's first byte can only consist of bytes that were copied.
starts-replace :
    (old replacement : Bytes) (r : ℕ) (prefix s : Bytes)
    → lacks (fold r) prefix ≡ true
    → starts_with prefix (replace_from old (r ∷ replacement) 0 s) ≡ true
    → starts_with prefix s ≡ true
unfolding starts_with replace_from lacks
starts-replace old replacement r [] s h p = refl
starts-replace old replacement r (x ∷ xs) [] h p = p
starts-replace old replacement r (x ∷ xs) (c ∷ s) h p =
    elim (Bool-cases (starts_with old (c ∷ s))) [
      | inl hit ↦ ground (arith, h, p, hit)
      | inr miss ↦ ground (arith, h, p, miss, starts-replace old replacement r xs s)
    ]

occurs-lacks :
    (o : ℕ) (old text s : Bytes)
    → lacks (fold o) text ≡ true
    → occurs (o ∷ old) (text ++ s) ≡ occurs (o ∷ old) s
unfolding occurs lacks
occurs-lacks o old [] s h = refl
occurs-lacks o old (c ∷ text) s h = ground (arith, h, occurs-lacks o old text s)

-- Replacing does not make another text occur, if that text needs a byte that the replacement lacks,
-- and after it none of the replacement's.
occurs-replace :
    (old replacement : Bytes) (r : ℕ) (w : ℕ) (prefix : Bytes) (skip : ℕ) (s : Bytes)
    → lacks (fold r) prefix ≡ true
    → lacks (fold w) (r ∷ replacement) ≡ true
    → occurs (w ∷ prefix) s ≡ false
    → occurs (w ∷ prefix) (replace_from old (r ∷ replacement) skip s) ≡ false
unfolding occurs replace_from
occurs-replace old replacement r w prefix skip [] h k n = n
occurs-replace old replacement r w prefix (suc skip) (c ∷ s) h k n =
    occurs-replace old replacement r w prefix skip s h k (ground (arith, n))
occurs-replace old replacement r w prefix zero (c ∷ s) h k n =
    elim (Bool-cases (starts_with old (c ∷ s))) [
      | inl hit ↦
          rw (occurs, replace_from, hit)
            (ground (
              arith,
              n,
              occurs-lacks w prefix (r ∷ replacement)
                  (replace_from old (r ∷ replacement) (length old - 1) s) k,
              occurs-replace old replacement r w prefix (length old - 1) s h k,
            ))
      | inr miss ↦
          rw (occurs, replace_from, miss)
            (ground (
              arith,
              n,
              starts-replace old replacement r prefix s h,
              occurs-replace old replacement r w prefix zero s h k,
            ))
    ]

-- After replacing, the replaced text is gone.
occurs-replaced :
    (old replacement : Bytes) (r : ℕ) (w : ℕ) (skip : ℕ) (s : Bytes)
    → lacks (fold r) old ≡ true
    → lacks (fold w) (r ∷ replacement) ≡ true
    → occurs (w ∷ old) (replace_from (w ∷ old) (r ∷ replacement) skip s) ≡ false
unfolding occurs replace_from
occurs-replaced old replacement r w skip [] h k = refl
occurs-replaced old replacement r w (suc skip) (c ∷ s) h k =
    occurs-replaced old replacement r w skip s h k
occurs-replaced old replacement r w zero (c ∷ s) h k =
    elim (Bool-cases (starts_with (w ∷ old) (c ∷ s))) [
      | inl hit ↦
          rw (occurs, replace_from, hit)
            (ground (
              arith,
              occurs-lacks w old (r ∷ replacement)
                  (replace_from (w ∷ old) (r ∷ replacement) (length (w ∷ old) - 1) s) k,
              occurs-replaced old replacement r w (length (w ∷ old) - 1) s h k,
            ))
      | inr miss ↦
          rw (occurs, replace_from, miss)
            (ground (
              arith,
              miss,
              starts-replace (w ∷ old) replacement r old s h,
              occurs-replaced old replacement r w zero s h k,
            ))
    ]

-- Where a text does not occur, there is nothing to replace.
replace-absent :
    (old replacement s : Bytes) → occurs old s ≡ false → replace_from old replacement zero s ≡ s
unfolding occurs replace_from
replace-absent old replacement [] n = refl
replace-absent old replacement (c ∷ s) n =
    let miss : starts_with old (c ∷ s) ≡ false = ground (arith, n) in
    rw (replace_from, miss) (ap (λ t. c ∷ t) (replace-absent old replacement s (ground (arith, n))))

-- For a tag without the bytes "<" and "&": neither its opening nor its closing form is left in an
-- escaped text, in any mix of cases.
pub tags_escaped :
    (tag s : Bytes)
    → lacks b'<' tag ≡ true
    → lacks b'&' tag ≡ true
    → (occurs (open_tag tag) (escape_tag tag s) ≡ false)
      × (occurs (close_tag tag) (escape_tag tag s) ≡ false)
unfolding lacks
tags_escaped tag s h k =
    let closed = replace_fold s (close_tag tag) (escaped_close tag) in
    (
      occurs-replaced tag (b'l' ∷ b't' ∷ b';' ∷ tag) b'&' b'<' zero closed k h,
      occurs-replace (open_tag tag) (b'l' ∷ b't' ∷ b';' ∷ tag) b'&' b'<' (b'/' ∷ tag) zero closed k
          h (occurs-replaced (b'/' ∷ tag) (b'l' ∷ b't' ∷ b';' ∷ b'/' ∷ tag) b'&' b'<' zero s k h),
    )

-- Escaping a text twice is escaping it once, for a tag without the bytes "<" and "&".
pub escape_tag-escape_tag :
    (tag s : Bytes)
    → lacks b'<' tag ≡ true
    → lacks b'&' tag ≡ true
    → escape_tag tag (escape_tag tag s) ≡ escape_tag tag s
escape_tag-escape_tag tag s h k =
    let gone = tags_escaped tag s h k in
    let once = replace-absent (close_tag tag) (escaped_close tag) (escape_tag tag s) gone.1 in
    rw once (replace-absent (open_tag tag) (escaped_open tag) (escape_tag tag s) gone.0)
