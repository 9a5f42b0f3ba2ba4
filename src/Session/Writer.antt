-- ===== src/Session/Writer.antt =====
-- handler/websocket.go: `writeAll`. What the writer answers to each call, the number of bytes it took
-- and its error, is an argument; the loop runs on fuel.
use modigo_runner.Base.{
  ℕ, zero, suc, ◌+◌, ◌≤◌, ◌≡◌, refl, sym, ap, ◌∙◌, ◌⊎◌, inl, inr, [], ◌∷◌, ◌++◌, Option, none, some,
  Text, arith, length, take, drop, Option-cases,
}

-- The call's number and its bytes give the count and the error of `Write`.
abbrev pub Writer : Type 0
Writer = ℕ → Text → ℕ × Option Text

-- How the loop ends, with what the writer took: with or without an error, or not within the fuel.
pub data Written : Type 0 where
  ended : (error : Option Text) → (taken : Text) → Written
  running : Written

-- What was taken before is put in front.
unfoldable pub after : Text → Written → Written
after before (ended error taken) = ended error (before ++ taken)
after before running = running

unfoldable pub write_all : (fuel : ℕ) → Writer → (call : ℕ) → Text → Written
write_all fuel w call [] = ended none []
write_all zero w call (c ∷ bytes) = running
write_all (suc fuel) w call (c ∷ bytes) =
    let (n, error) = w call (c ∷ bytes) in
    let rest = write_all fuel w (suc call) (drop n (c ∷ bytes)) in
    elim error [
      | some e ↦ ended (some e) (take n (c ∷ bytes))
      | none ↦ after (take n (c ∷ bytes)) rest
    ]

-- A writer that reports no error has taken at least a byte, and no more than there were.
abbrev pub Progress : Writer → Type 0
Progress w =
    (call c : ℕ) (bytes : Text)
    → (w call (c ∷ bytes)).1 ≡ none
    → (1 ≤ (w call (c ∷ bytes)).0) × ((w call (c ∷ bytes)).0 ≤ length (c ∷ bytes))

-- The loop has ended: all bytes were taken in order, or some of the first with an error.
abbrev pub Ended : Text → Written → Type 0
Ended bytes result =
    (result ≡ ended none bytes) ⊎ ((e : Text) × (n : ℕ) × (result ≡ ended (some e) (take n bytes)))

take-append-drop : (n : ℕ) (s : Text) → take n s ++ drop n s ≡ s
take-append-drop zero s = refl
take-append-drop (suc n) [] = refl
take-append-drop (suc n) (c ∷ s) = ap (λ x. c ∷ x) (take-append-drop n s)

take-nil : (n : ℕ) → take {A = ℕ} n [] ≡ []
take-nil zero = refl
take-nil (suc n) = refl

take_add : (n m : ℕ) (s : Text) → take n s ++ take m (drop n s) ≡ take (n + m) s
take_add zero m s = ap (λ x. take x s) (omega arith)
take_add (suc n) m [] = take-nil m ∙ sym (take-nil (suc n + m))
take_add (suc n) m (c ∷ s) =
    ap (λ x. c ∷ x) (take_add n m s)
    ∙ ap (λ x. take x (c ∷ s)) {x = suc (n + m)} {y = suc n + m} (omega arith)

length-drop : (n : ℕ) (s : Text) → length (drop n s) ≤ length s
length-drop zero s = omega arith
length-drop (suc n) [] = omega arith
length-drop (suc n) (c ∷ s) = omega (arith, length-drop n s)

drop-shorter : (n c : ℕ) (s : Text) → 1 ≤ n → length (drop n (c ∷ s)) ≤ length s
drop-shorter zero c s h = omega (arith, h)
drop-shorter (suc n) c s h = length-drop n s

-- On fuel for each byte, whatever the writer answers: the loop ends, either with all bytes taken in
-- their order or with an error and a part of them from the front (for a writer that takes at least a
-- byte, and no more than there are, when it reports no error).
pub write_all-Ended :
    (fuel : ℕ) (w : Writer) (call : ℕ) (bytes : Text)
    → Progress w
    → length bytes ≤ fuel
    → Ended bytes (write_all fuel w call bytes)
unfolding write_all after
write_all-Ended fuel w call [] p h = inl refl
write_all-Ended zero w call (c ∷ bytes) p h =
    let none_left : ⊥ = omega (arith, h) in elim none_left [ ]
write_all-Ended (suc fuel) w call (c ∷ bytes) p h = elim (Option-cases (w call (c ∷ bytes)).1) [
  | inr (e, q) ↦ inr (e, (w call (c ∷ bytes)).0, rw (q, write_all) refl)
  | inl q ↦
      let n = (w call (c ∷ bytes)).0 in
      let some_taken = (p call c bytes q).0 in
      let shorter = drop-shorter n c bytes some_taken in
      let rest =
        write_all-Ended fuel w (suc call) (drop n (c ∷ bytes)) p (omega (arith, h, shorter)) in
      elim rest [
        | inl all ↦
            inl (rw (q, write_all, all, after) (ap (ended none) (take-append-drop n (c ∷ bytes))))
        | inr (e, m, part) ↦ inr (
          e,
          n + m,
          rw (q, write_all, part, after) (ap (ended (some e)) (take_add n m (c ∷ bytes))),
        )
      ]
]
