-- ===== src/Cleanup/Due.antt =====
-- executor/cleanup.go: which containers a clean-up removes.
use modigo_runner.Base.{
  ℕ, ◌≡◌, ◌≢◌, refl, ap, sym, if◌then◌else◌, Bool, false, true, ◌||◌, ◌≤◌, ◌-◌, ◌*◌, ◌⊎◌, ◌↔◌, ◌∙◌,
  codes, contains, has_prefix, List, [], ◌∷◌, ◌++◌, none, some, Text, All, any, text_eq,
  text_eq_iff, text_eq-false, text_eq_refl, is_empty, arith, Result, ok, err, Bool-cases,
  Result-cases, inl, inr,
}
use modigo_runner.Ratelimit.{second}
use modigo_runner.Docker.Calls.{Trace, remove}
use modigo_runner.Cleanup.{
  Found, Listing, student_image_langs, add_new, add_all, list_images, list_student_containers,
  is_student_container_image, is_due, remove_due,
}

abbrev pub Differ : Text → List Found → Type 0
Differ id cs = All (λ d. d.id ≢ id) cs

-- No two of the containers have the same id.
abbrev pub Unique : List Found → Type 0
Unique [] = Unit
Unique (c ∷ cs) = Differ c.id cs × Unique cs

-- Whether the removal of a container has been requested.
abbrev pub is_removed : Text → Trace → Bool
is_removed id [] = false
is_removed id (remove x ∷ es) = text_eq x id || is_removed id es
is_removed id (e ∷ es) = is_removed id es

Differ-unseen :
    (c : Found) (cs : List Found) → any (λ d. text_eq d.id c.id) cs ≡ false → Differ c.id cs
Differ-unseen c [] e = tt
Differ-unseen c (d ∷ ds) e =
    ((λ same. ground (arith, text_eq_iff d.id c.id)), Differ-unseen c ds (ground arith))

Differ-append :
    (id : Text) (cs : List Found) (d : Found) → Differ id cs → d.id ≢ id → Differ id (cs ++ d ∷ [])
Differ-append id [] d h n = (n, tt)
Differ-append id (c ∷ cs) d (h, hs) n = (h, Differ-append id cs d hs n)

Unique-append : (cs : List Found) (d : Found) → Unique cs → Differ d.id cs → Unique (cs ++ d ∷ [])
Unique-append [] d u h = (tt, tt)
Unique-append (c ∷ cs) d (u, us) (h, hs) =
    (Differ-append c.id cs d u (λ e. h (sym e)), Unique-append cs d us hs)

Unique-add_new : (c : Found) (all : List Found) → Unique all → Unique (add_new c all)
unfolding add_new
Unique-add_new c all u = elim (Bool-cases (any (λ d. text_eq d.id c.id) all)) [
  | inl e ↦ rw (e, add_new) u
  | inr e ↦ rw (e, add_new) (Unique-append all c u (Differ-unseen c all e))
]

Unique-add_all : (cs all : List Found) → Unique all → Unique (add_all cs all)
unfolding add_all
Unique-add_all [] all u = u
Unique-add_all (c ∷ cs) all u = Unique-add_all cs (add_new c all) (Unique-add_new c all u)

-- Of a list without errors.
abbrev pub IsUnique : Result (List Found) → Type 0
IsUnique (err e) = Unit
IsUnique (ok cs) = Unique cs

list_images-IsUnique :
    (listing : Listing) (prefix : Text) (langs : List Text) (all : List Found)
    → Unique all
    → IsUnique (list_images listing prefix langs all)
unfolding list_images
list_images-IsUnique listing prefix [] all u = u
list_images-IsUnique listing prefix (lang ∷ langs) all u =
    elim (Result-cases (listing (some (prefix ++ lang)))) [
      | inl (cs, e) ↦
          rw (e, list_images)
            (list_images-IsUnique listing prefix langs (add_all cs all) (Unique-add_all cs all u))
      | inr (x, e) ↦ rw (e, list_images) tt
    ]

-- However often the daemon lists a container, for the label and for the images, it is a candidate
-- only once.
pub list_student_containers-IsUnique :
    (listing : Listing) (prefix : Text) → IsUnique (list_student_containers listing prefix)
unfolding list_student_containers
list_student_containers-IsUnique listing prefix = elim (Result-cases (listing none)) [
  | inl (cs, e) ↦ elim (Bool-cases (is_empty prefix)) [
    | inl q ↦ rw (e, q, list_student_containers) (Unique-add_all cs [] tt)
    | inr q ↦
        rw (e, q, list_student_containers)
          (list_images-IsUnique listing prefix student_image_langs (add_all cs [])
            (Unique-add_all cs [] tt))
  ]
  | inr (x, e) ↦ rw (e, list_student_containers) tt
]

-- A container with an image name that, behind the prefix, where there is one and the name begins with
-- it, does not begin with "target-", and otherwise has no "target-" in it.
abbrev pub IsStudent : Text → Found → Type 0
IsStudent prefix c =
    (is_empty c.image ≡ false)
    × (((is_empty prefix ≡ false)
          × (has_prefix c.image prefix ≡ true)
          × (has_prefix c.image (prefix ++ codes "target-") ≡ false))
        ⊎ (((is_empty prefix ≡ true) ⊎ (has_prefix c.image prefix ≡ false))
            × (contains c.image (codes "target-") ≡ false)))

module _ (prefix : Text) (now age_threshold : ℕ) where
  remove_due-other :
      (id : Text) (cs : List Found) (es : Trace)
      → Differ id cs
      → is_removed id (remove_due prefix now age_threshold cs es) ≡ is_removed id es
  unfolding remove_due
  remove_due-other id [] es h = refl
  remove_due-other id (c ∷ cs) es (h, hs) = ground (
    arith,
    text_eq-false c.id id h,
    remove_due-other id cs (if is_due prefix now age_threshold c then remove c.id ∷ es else es) hs,
  )

  -- It was created at least the threshold ago.
  abbrev pub IsOld : Found → Type 0
  IsOld c = age_threshold ≤ now - c.created * second

  Differ-middle :
      (id : Text) (before : List Found) (c : Found) (after : List Found)
      → Differ id (before ++ c ∷ after)
      → c.id ≢ id
  Differ-middle id [] c after (h, hs) = h
  Differ-middle id (b ∷ before) c after (h, hs) = Differ-middle id before c after hs

  is_due_iff :
      (c : Found) → (is_due prefix now age_threshold c ≡ true) ↔ (IsStudent prefix c × IsOld c)
  unfolding is_due is_student_container_image
  is_due_iff c = ground arith

  removal :
      (before : List Found) (c : Found) (after : List Found) (es : Trace)
      → Unique (before ++ c ∷ after)
      → is_removed c.id (remove_due prefix now age_threshold (before ++ c ∷ after) es)
        ≡ (is_due prefix now age_threshold c || is_removed c.id es)
  unfolding remove_due
  removal [] c after es (u, us) = ground (
    arith,
    text_eq_refl c.id,
    remove_due-other c.id after (if is_due prefix now age_threshold c then remove c.id ∷ es else es)
        u,
  )
  removal (b ∷ before) c after es (u, us) =
      let differ = Differ-middle b.id before c after u in
      let rest : Trace = if is_due prefix now age_threshold b then remove b.id ∷ es else es in
      ground (arith, text_eq-false b.id c.id (λ e. differ (sym e)), removal before c after rest us)

  -- A clean-up asks for the removal of a candidate exactly if it is the container of a student, by the
  -- name of its image, and at least as old as the threshold, or its removal had been asked for before
  -- (for candidates whose ids differ).
  pub remove_due_iff :
      (before : List Found) (c : Found) (after : List Found) (es : Trace)
      → Unique (before ++ c ∷ after)
      → (is_removed c.id (remove_due prefix now age_threshold (before ++ c ∷ after) es) ≡ true)
        ↔ ((IsStudent prefix c × IsOld c) ⊎ (is_removed c.id es ≡ true))
  remove_due_iff before c after es u =
      let removed = is_removed c.id es in
      let e = removal before c after es u in
      let due = is_due_iff c in
      elim (Bool-cases (is_due prefix now age_threshold c)) [
        | inl d ↦ ((λ h. inl (due.0 d)), (λ h. e ∙ ap (λ b. b || removed) d))
        | inr d ↦
            let kept = e ∙ ap (λ b. b || removed) d in
            (
              (λ h. inr (sym kept ∙ h)),
              (λ h. elim h [ inl s ↦ (let q = due.1 s in ground arith) | inr r ↦ kept ∙ r ]),
            )
      ]
