-- ===== src/RateLimiter/Keys.antt =====
-- The key of a bucket determines its category and peer, and a peer's keys are those that end in
-- its name, as long as no name holds the separator.
use aether_web_lite.Prelude.{◌≡◌, ◌≢◌, refl, false, [], ◌∷◌, ◌++◌, arith, All, ◌==◌, eq_iff}
use aether_web_lite.Prelude.Text.{Text, text_eq}
use aether_web_lite.RateLimiter.{key, ends_with}

-- The text holds no separator.
abbrev pub Plain : Text → Type 0
Plain = All (λ c. c ≢ 0)

pub key-injective : (c d p q : Text) → Plain c → Plain d → key c p ≡ key d q → (c ≡ d) × (p ≡ q)
unfolding key
key-injective [] [] p q hc hd e = (refl, ground arith)
key-injective [] (b ∷ d) p q hc hd e = absurd (hd.0 (ground arith))
key-injective (a ∷ c) [] p q hc hd e = absurd (hc.0 (ground arith))
key-injective (a ∷ c) (b ∷ d) p q hc hd e =
    ground (arith, key-injective c d p q hc.1 hd.1 (ground arith))

-- A suffix that begins with the separator is not inside a plain text.
ends_with-Plain : (p q : Text) → Plain q → ends_with (0 ∷ p) q ≡ false
unfolding ends_with
ends_with-Plain p [] h = refl
ends_with-Plain p (c ∷ q) h = ground (arith, ends_with-Plain p q h.1, eq_iff (0 ∷ p) (c ∷ q), h.0)

not-Plain : (c p q : Text) → Plain p → p ≢ c ++ 0 ∷ q
not-Plain [] [] q h e = cc
not-Plain [] (b ∷ p) q h e = h.0 (ground arith)
not-Plain (a ∷ c) [] q h e = cc
not-Plain (a ∷ c) (b ∷ p) q h e = not-Plain c p q h.1 (ground arith)

pub ends_with-key : (c p q : Text) → Plain p → Plain q → ends_with (0 ∷ p) (key c q) ≡ (p == q)
unfolding ends_with key
ends_with-key [] p q hp hq = ground (arith, ends_with-Plain p q hq, eq_iff p q)
ends_with-key (a ∷ c) p q hp hq =
    ground (arith, ends_with-key c p q hp hq, eq_iff p (c ++ 0 ∷ q), not-Plain c p q hp)
