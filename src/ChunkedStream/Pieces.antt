-- ===== src/ChunkedStream/Pieces.antt =====
-- The pieces that a message is cut into make it up.
use aether_web_lite.Prelude.{
  ℕ, zero, suc, ◌+◌, ◌*◌, ◌<◌, ◌≤◌, min, ◌≡◌, refl, ap, sym, ◌∙◌, some, [], ◌∷◌, ◌++◌, arith,
  number_key, length, take, drop, take-append-drop, length-drop,
}
use aether_web_lite.Bytes.{Bytes}
use aether_web_lite.JsMap
use aether_web_lite.JsMap.{JsMap}
use aether_web_lite.ChunkedStream.{chunk_size, piece, assemble}

min-suc : (n k : ℕ) → min (suc n) (suc k) ≡ suc (min n k)
min-suc n k = omega arith

take-min : (n : ℕ) (xs : Bytes) → take (min n (length xs)) xs ≡ take n xs
take-min zero xs = let e : min 0 (length xs) ≡ 0 = omega arith in ap (λ k. take k xs) e
take-min (suc n) [] = let e : min (suc n) 0 ≡ 0 = omega arith in ap (λ k. take k []) e
take-min (suc n) (x ∷ xs) =
    ap (λ k. take k (x ∷ xs)) (min-suc n (length xs)) ∙ ap (λ l. x ∷ l) (take-min n xs)

drop-end : (n : ℕ) (xs : Bytes) → length xs ≤ n → drop n xs ≡ []
drop-end zero [] h = refl
drop-end zero (x ∷ xs) h = absurd (omega arith)
drop-end (suc n) [] h = refl
drop-end (suc n) (x ∷ xs) h = drop-end n xs (omega arith)

drop-drop : (m n t : ℕ) (xs : Bytes) → m + n ≡ t → drop n (drop m xs) ≡ drop t xs
drop-drop zero n t xs h = ap (λ k. drop k xs) (omega arith)
drop-drop (suc m) n zero xs h = absurd (omega arith)
drop-drop (suc m) n (suc t) [] h = drop-end n [] (omega arith)
drop-drop (suc m) n (suc t) (x ∷ xs) h = drop-drop m n t xs (omega arith)

piece-drop :
    (message : Bytes) (seq : ℕ)
    → piece message seq ++ drop ((seq + 1) * chunk_size) message ≡ drop (seq * chunk_size) message
piece-drop message seq =
    let from = drop (seq * chunk_size) message in
    let as_taken : piece message seq ≡ take chunk_size from =
      ap (λ n. take n from) (omega (arith, length-drop (seq * chunk_size) message))
      ∙ take-min chunk_size from in
    let tail : drop chunk_size from ≡ drop ((seq + 1) * chunk_size) message =
      drop-drop (seq * chunk_size) chunk_size ((seq + 1) * chunk_size) message (omega arith) in
    ap (λ p. p ++ drop ((seq + 1) * chunk_size) message) as_taken
    ∙ (ap (λ t. take chunk_size from ++ t) (sym tail) ∙ take-append-drop chunk_size from)

-- All chunks in their order are the message.
pub assemble-pieces :
    (chunks : JsMap ℕ Bytes) (message : Bytes) (total i left : ℕ)
    → i + left ≡ total
    → length message ≤ total * chunk_size
    → ((j : ℕ) → j < total → JsMap.get j chunks ≡ some (piece message j))
    → assemble chunks i left ≡ drop (i * chunk_size) message
unfolding assemble
assemble-pieces chunks message total i zero e fits all =
    sym (drop-end (i * chunk_size) message (omega arith))
assemble-pieces chunks message total i (suc left) e fits all =
    rw (assemble, all i (omega arith))
      (ap (λ t. piece message i ++ t)
          (assemble-pieces chunks message total (i + 1) left (omega arith) fits all)
        ∙ piece-drop message i)
