-- ===== src/Governance/Branch/Closure.antt =====
-- The loop of the closures in js/governance/branch.mjs ends, and gathers what can be reached.
use fount_p2p.Base.{
  ℕ, zero, suc, ◌+◌, ◌≤◌, ◌≡◌, refl, ◌⊎◌, none, some, List, [], ◌∷◌, ◌++◌, Bool, true, false, arith,
  ◌==◌, if◌then◌else◌, inl, inr, ◌||◌, length, length-append, ap, sym, Bool-cases, Option-cases,
  subst,
}
use mathlib.Core.List.{reverse, reverse-cons}
use fount_p2p.Base.JsMap.{get}
use fount_p2p.Core.HexIds.{
  Text, text_dec, contains, decided, IsIn, contains-IsIn, IsIn-append, IsIn-append_left,
  IsIn-append_right,
}
use fount_p2p.Governance.Branch.{Event, Graph, close, edge_count}

abbrev pub NonEmpty : Text → Type 0
NonEmpty x = (length x == 0) ≡ false

pub IsIn-reverse : (a : Text) (xs : List Text) → IsIn a (reverse xs) → IsIn a xs
IsIn-reverse a [] h = h
IsIn-reverse a (x ∷ xs) h =
    elim (IsIn-append a (reverse xs) (x ∷ []) (subst (IsIn a) (reverse-cons x xs) h)) [
      | inl k ↦ inr (IsIn-reverse a xs k)
      | inr k ↦ elim k [ inl e ↦ inl e | inr e ↦ absurd e ]
    ]

pub reverse-IsIn : (a : Text) (xs : List Text) → IsIn a xs → IsIn a (reverse xs)
reverse-IsIn a [] h = h
reverse-IsIn a (x ∷ xs) h = subst (IsIn a) (sym (reverse-cons x xs)) (elim h [
  | inl e ↦ IsIn-append_right a (reverse xs) (x ∷ []) (inl e)
  | inr k ↦ IsIn-append_left a (reverse xs) (x ∷ []) (reverse-IsIn a xs k)
])

pub length-reverse : (xs : List Text) → length (reverse xs) ≡ length xs
length-reverse [] = refl
length-reverse (x ∷ xs) =
    omega
      (arith, ap length (reverse-cons x xs), length-append (reverse xs) (x ∷ []), length-reverse xs)

contains-snoc :
    (u id : Text) (out : List Text)
    → contains u (out ++ id ∷ []) ≡ (contains u out || decided (text_dec id u))
contains-snoc u id [] = ground arith
contains-snoc u id (x ∷ out) = ground (arith, contains-snoc u id out)

module _ (neighbours : Text → List Text) where
  -- The pushes still to come from the ids that are not yet out.
  abbrev pub weight : List Text → Graph → ℕ
  weight out [] = 0
  weight out ((id, e) ∷ g) = (if contains id out then 0 else length (neighbours id)) + weight out g

  pub weight-edge_count : (g : Graph) → weight [] g ≡ edge_count neighbours g
  unfolding edge_count
  weight-edge_count [] = refl
  weight-edge_count ((id, e) ∷ g) = omega (arith, weight-edge_count g)

  weight-snoc-le :
      (id : Text) (out : List Text) (g : Graph) → weight (out ++ id ∷ []) g ≤ weight out g
  weight-snoc-le id out [] = omega arith
  weight-snoc-le id out ((u, e) ∷ g) =
      ground (arith, contains-snoc u id out, weight-snoc-le id out g)

  weight-snoc :
      (id : Text) (out : List Text) (g : Graph) (e : Event)
      → get text_dec id g ≡ some e
      → contains id out ≡ false
      → weight (out ++ id ∷ []) g + length (neighbours id) ≤ weight out g
  unfolding get
  weight-snoc id out [] e h new = cc
  weight-snoc id out ((u, d) ∷ g) e h new = elim (text_dec u id) [
    | yes same ↦ rw same (ground (arith, contains-snoc id id out, weight-snoc-le id out g))
    | no other ↦ ground (arith, contains-snoc u id out, weight-snoc id out g e)
  ]

  close_empty : (fuel : ℕ) (out : List Text) → close neighbours fuel [] out ≡ out
  unfolding close
  close_empty zero out = refl
  close_empty (suc fuel) out = refl

  abbrev skips : Text → List Text → Bool
  skips id out = length id == 0 || contains id out

  pub close_skip :
      (fuel : ℕ) (id : Text) (stack out : List Text)
      → skips id out ≡ true
      → close neighbours (suc fuel) (id ∷ stack) out ≡ close neighbours fuel stack out
  unfolding close
  close_skip fuel id stack out h = ground arith

  pub close_visit :
      (fuel : ℕ) (id : Text) (stack out : List Text)
      → skips id out ≡ false
      → close neighbours (suc fuel) (id ∷ stack) out
        ≡ close neighbours fuel (reverse (neighbours id) ++ stack) (out ++ id ∷ [])
  unfolding close
  close_visit fuel id stack out h = ground arith

  -- What the loop gathers keeps every property that the stack and the neighbours have.
  pub close-sound :
      (P : Text → Type 0) (fuel : ℕ) (stack out : List Text)
      → ((x u : Text) → P x → IsIn u (neighbours x) → NonEmpty u → P u)
      → ((x : Text) → IsIn x stack → NonEmpty x → P x)
      → ((x : Text) → IsIn x out → P x)
      → (x : Text) → IsIn x (close neighbours fuel stack out)
      → P x
  unfolding close
  close-sound P zero stack out step st o x h = o x h
  close-sound P (suc fuel) [] out step st o x h = o x h
  close-sound P (suc fuel) (id ∷ stack) out step st o x h = elim (Bool-cases (skips id out)) [
    | inl skip ↦
        close-sound P fuel stack out step (λ y k. st y (inr k)) o x
          (subst (IsIn x) (close_skip fuel id stack out skip) h)
    | inr visit ↦
        let here : P id = st id (inl refl) (ground arith) in
        close-sound P fuel (reverse (neighbours id) ++ stack) (out ++ id ∷ []) step
          (λ y k n. elim (IsIn-append y (reverse (neighbours id)) stack k) [
            | inl a ↦ step id y here (IsIn-reverse y (neighbours id) a) n
            | inr b ↦ st y (inr b) n
          ])
          (λ y k. elim (IsIn-append y out (id ∷ []) k) [
            | inl a ↦ o y a
            | inr b ↦ elim b [ inl e ↦ subst P e here | inr e ↦ absurd e ]
          ])
          x (subst (IsIn x) (close_visit fuel id stack out visit) h)
  ]

  -- Every neighbour of what is out is out or on the stack.
  abbrev pub IsFrontier : List Text → List Text → Type 0
  IsFrontier stack out =
      (x u : Text) → IsIn x out → IsIn u (neighbours x) → NonEmpty u → IsIn u out ⊎ IsIn u stack

  abbrev pub IsBounded : Graph → Type 0
  IsBounded g = (x : Text) → get text_dec x g ≡ none → neighbours x ≡ []

  weight-visit :
      (g : Graph) (id : Text) (stack out : List Text)
      → IsBounded g
      → contains id out ≡ false
      → length (reverse (neighbours id) ++ stack) + weight (out ++ id ∷ []) g
        ≤ length stack + weight out g
  weight-visit g id stack out b new = elim (Option-cases (get text_dec id g)) [
    | inl missing ↦ omega (
      arith,
      length-append (reverse (neighbours id)) stack,
      length-reverse (neighbours id),
      weight-snoc-le id out g,
      ap length (b id missing),
    )
    | inr (e, found) ↦ omega (
      arith,
      length-append (reverse (neighbours id)) stack,
      length-reverse (neighbours id),
      weight-snoc id out g e found new,
    )
  ]

  -- The result holds what was out and on the stack, and is closed under neighbours.
  pub record IsClosure (stack out result : List Text) : Type 0 where
    pub keeps : (x : Text) → IsIn x out → IsIn x result
    pub takes : (x : Text) → IsIn x stack → NonEmpty x → IsIn x result
    pub closed : (x u : Text) → IsIn x result → IsIn u (neighbours x) → NonEmpty u → IsIn u result

  skips-IsIn : (id : Text) (out : List Text) → skips id out ≡ true → NonEmpty id → IsIn id out
  skips-IsIn id out skip n = contains-IsIn id out (ground arith)

  IsClosure-skip :
      (id : Text) (stack out result : List Text)
      → skips id out ≡ true
      → IsClosure stack out result
      → IsClosure (id ∷ stack) out result
  IsClosure-skip id stack out result skip c = record {
    keeps = c.keeps;
    takes = λ x h n. elim h [
      | inl e ↦ c.keeps x (skips-IsIn x out (subst (λ y. skips y out ≡ true) e skip) n)
      | inr k ↦ c.takes x k n
    ];
    closed = c.closed;
  }

  IsClosure-visit :
      (id : Text) (stack out result : List Text)
      → IsClosure (reverse (neighbours id) ++ stack) (out ++ id ∷ []) result
      → IsClosure (id ∷ stack) out result
  IsClosure-visit id stack out result c = record {
    keeps = λ x h. c.keeps x (IsIn-append_left x out (id ∷ []) h);
    takes = λ x h n. elim h [
      | inl e ↦ c.keeps x (IsIn-append_right x out (id ∷ []) (inl e))
      | inr k ↦ c.takes x (IsIn-append_right x (reverse (neighbours id)) stack k) n
    ];
    closed = c.closed;
  }

  IsFrontier-skip :
      (id : Text) (stack out : List Text)
      → skips id out ≡ true
      → IsFrontier (id ∷ stack) out
      → IsFrontier stack out
  IsFrontier-skip id stack out skip f x u h k n = elim (f x u h k n) [
    | inl a ↦ inl a
    | inr (inl e) ↦ inl (skips-IsIn u out (subst (λ y. skips y out ≡ true) e skip) n)
    | inr (inr a) ↦ inr a
  ]

  IsFrontier-visit :
      (id : Text) (stack out : List Text)
      → IsFrontier (id ∷ stack) out
      → IsFrontier (reverse (neighbours id) ++ stack) (out ++ id ∷ [])
  IsFrontier-visit id stack out f x u h k n = elim (IsIn-append x out (id ∷ []) h) [
    | inl a ↦ elim (f x u a k n) [
      | inl b ↦ inl (IsIn-append_left u out (id ∷ []) b)
      | inr (inl e) ↦ inl (IsIn-append_right u out (id ∷ []) (inl e))
      | inr (inr b) ↦ inr (IsIn-append_right u (reverse (neighbours id)) stack b)
    ]
    | inr (inl e) ↦ inr (
        IsIn-append_left u (reverse (neighbours id)) stack
          (reverse-IsIn u (neighbours id) (subst (λ y. IsIn u (neighbours y)) (sym e) k)))
    | inr (inr e) ↦ absurd e
  ]

  pub close-IsClosure :
      (g : Graph) (fuel : ℕ) (stack out : List Text)
      → IsBounded g
      → length stack + weight out g ≤ fuel
      → IsFrontier stack out
      → IsClosure stack out (close neighbours fuel stack out)
  close-IsClosure g fuel [] out b enough f = rw close_empty (record {
    keeps = λ x h. h;
    takes = λ x h n. absurd h;
    closed = λ x u h k n. elim (f x u h k n) [ inl a ↦ a | inr e ↦ absurd e ];
  })
  close-IsClosure g zero (id ∷ stack) out b enough f = absurd (omega arith)
  close-IsClosure g (suc fuel) (id ∷ stack) out b enough f = elim (Bool-cases (skips id out)) [
    | inl skip ↦ rw (close_skip fuel id stack out skip) (
        IsClosure-skip id stack out (close neighbours fuel stack out) skip
          (close-IsClosure g fuel stack out b (omega arith) (IsFrontier-skip id stack out skip f)))
    | inr visit ↦ rw (close_visit fuel id stack out visit) (
        IsClosure-visit id stack out
          (close neighbours fuel (reverse (neighbours id) ++ stack) (out ++ id ∷ []))
          (close-IsClosure g fuel (reverse (neighbours id) ++ stack) (out ++ id ∷ []) b
            (omega (arith, weight-visit g id stack out b (ground arith)))
            (IsFrontier-visit id stack out f)))
  ]
