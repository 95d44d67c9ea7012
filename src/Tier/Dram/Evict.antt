-- ===== src/Tier/Dram/Evict.antt =====
-- The loops of `EvictToFit`.
use agent_state_storage.Base.{
  ℕ, zero, suc, ◌+◌, ◌≤◌, ◌≡◌, refl, ◌∙◌, Bool, true, false, List, [], ◌∷◌, Option, some, none,
  length, arith, subst, Bool-cases, Option-cases, inl, inr, ◌⊎◌, ltb, All,
}
use agent_state_storage.Tier.Dram.{
  Entry, DramTier, victim, drop_a1in, drop_am, ghost_insert, trim_a1in, trim_all, repeat,
  evict_to_fit, used_bytes,
}
use agent_state_storage.Tier.Dram.Bytes.{
  IsCounted, bytes_of, victim-Found, victim_bytes, Found, drop_am-IsCounted, drop_a1in-IsCounted,
}

abbrev pub entries : DramTier → ℕ
entries t = length t.a1in + length t.am

-- What a round does when it does something.
abbrev Round : (DramTier → ℕ) → DramTier → Option DramTier → Type 0
Round measure t none = Unit
Round measure t (some u) =
    (IsCounted t → IsCounted u)
    × (measure t ≡ suc (measure u))
    × (u.capacity_bytes ≡ t.capacity_bytes)

a1in_length : DramTier → ℕ
a1in_length t = length t.a1in

dropped_a1in :
    (ne : Entry → Bool) (v : Entry) (rest : List Entry) (t : DramTier)
    → victim ne t.a1in ≡ some (v, rest)
    → Round entries t (some (drop_a1in v rest t))
      × (a1in_length t ≡ suc (a1in_length (drop_a1in v rest t)))
unfolding drop_a1in ghost_insert a1in_length
dropped_a1in ne v rest t e =
    let (_, shorter, _) = victim_bytes ne t.a1in v rest e in
    (((λ h. drop_a1in-IsCounted ne v rest t e h), omega (arith, shorter), refl), shorter)

dropped_am :
    (ne : Entry → Bool) (v : Entry) (rest : List Entry) (t : DramTier)
    → victim ne t.am ≡ some (v, rest)
    → Round entries t (some (drop_am v rest t))
unfolding drop_am
dropped_am ne v rest t e =
    let (_, shorter, _) = victim_bytes ne t.am v rest e in
    ((λ h. drop_am-IsCounted ne v rest t e h), omega (arith, shorter), refl)

trim_a1in-Round :
    (ne : Entry → Bool) (n : ℕ) (t : DramTier) → Round a1in_length t (trim_a1in ne n t)
unfolding trim_a1in
trim_a1in-Round ne n t = elim (Bool-cases (ltb t.a1in_capacity (t.a1in_bytes_used + n))) [
  | inr b ↦ rw b tt
  | inl b ↦ rw b (elim (Option-cases (victim ne t.a1in)) [
    | inl e ↦ rw e tt
    | inr ((v, rest), e) ↦
        rw e
          (let ((keeps, _, same), shorter) = dropped_a1in ne v rest t e in (keeps, shorter, same))
  ])
]

trim_all-Round : (ne : Entry → Bool) (n : ℕ) (t : DramTier) → Round entries t (trim_all ne n t)
unfolding trim_all
trim_all-Round ne n t =
    elim (Bool-cases (ltb t.capacity_bytes (t.a1in_bytes_used + t.am_bytes_used + n))) [
      | inr b ↦ rw b tt
      | inl b ↦ rw b (elim (Option-cases (victim ne t.am)) [
        | inr ((v, rest), e) ↦ rw e (dropped_am ne v rest t e)
        | inl e ↦ rw e (elim (Option-cases (victim ne t.a1in)) [
          | inl f ↦ rw f tt
          | inr ((v, rest), f) ↦ rw f (dropped_a1in ne v rest t f).0
        ])
      ])
    ]

-- A loop keeps what a round keeps, and with fuel for the measure it stops because a round does
-- nothing.
module _ (measure : DramTier → ℕ) (round : DramTier → Option DramTier)
    (steps : (t : DramTier) → Round measure t (round t)) where
  repeat-Round :
      (fuel : ℕ) (t : DramTier)
      → measure t ≤ fuel
      → (IsCounted t → IsCounted (repeat fuel round t))
        × (round (repeat fuel round t) ≡ none)
        × ((repeat fuel round t).capacity_bytes ≡ t.capacity_bytes)
  unfolding repeat
  repeat-Round zero t h = elim (Option-cases (round t)) [
    | inl e ↦ ((λ c. c), e, refl)
    | inr (u, e) ↦
        let s = subst (Round measure t) e (steps t) in
        let no : ⊥ = omega (arith, s.1, h) in elim no [ ]
  ]
  repeat-Round (suc fuel) t h = elim (Option-cases (round t)) [
    | inl e ↦ rw (e, repeat) ((λ c. c), e, refl)
    | inr (u, e) ↦
        let (keeps, less, same) = subst (Round measure t) e (steps t) in
        let (k2, ends, s2) = repeat-Round fuel u (omega (arith, less, h)) in
        rw (e, repeat) ((λ c. k2 (keeps c)), ends, s2 ∙ same)
  ]

evict_to_fit_loops :
    (ne : Entry → Bool) (n : ℕ) (t : DramTier)
    → (IsCounted t → IsCounted (evict_to_fit ne n t))
      × (trim_all ne n (evict_to_fit ne n t) ≡ none)
      × ((evict_to_fit ne n t).capacity_bytes ≡ t.capacity_bytes)
unfolding evict_to_fit a1in_length
evict_to_fit_loops ne n t =
    let u = repeat (length t.a1in) (trim_a1in ne n) t in
    let (k, _, s) =
      repeat-Round a1in_length (trim_a1in ne n) (trim_a1in-Round ne n) (length t.a1in) t
        (omega arith) in
    let (k2, ends, s2) =
      repeat-Round entries (trim_all ne n) (trim_all-Round ne n) (entries u) u (omega arith) in
    ((λ c. k2 (k c)), ends, s2 ∙ s)

pub evict_to_fit-IsCounted :
    (ne : Entry → Bool) (n : ℕ) (t : DramTier) → IsCounted t → IsCounted (evict_to_fit ne n t)
evict_to_fit-IsCounted ne n t c = (evict_to_fit_loops ne n t).0 c

none_kept : (es : List Entry) → All (λ e. false ≡ true) es → bytes_of es ≡ 0
unfolding bytes_of
none_kept [] h = refl
none_kept (e ∷ es) h = ground arith

-- When the second loop ends, the bytes fit, or no entry may be evicted.
trim_all-none :
    (ne : Entry → Bool) (n : ℕ) (t : DramTier)
    → trim_all ne n t ≡ none
    → (used_bytes t + n ≤ t.capacity_bytes)
      ⊎ (All (λ e. ne e ≡ true) t.am × All (λ e. ne e ≡ true) t.a1in)
unfolding trim_all used_bytes
trim_all-none ne n t h =
    elim (Bool-cases (ltb t.capacity_bytes (t.a1in_bytes_used + t.am_bytes_used + n))) [
      | inr b ↦ inl (ground arith)
      | inl b ↦ elim (Option-cases (victim ne t.am)) [
        | inr (p, e) ↦ ground arith
        | inl e ↦ elim (Option-cases (victim ne t.a1in)) [
          | inr (p, f) ↦ ground arith
          | inl f ↦ inr (
            subst (Found ne t.am) e (victim-Found ne t.am),
            subst (Found ne t.a1in) f (victim-Found ne t.a1in),
          )
        ]
      ]
    ]

-- `EvictToFit` ends with room for the incoming bytes, or with only entries that no policy lets go.
pub evict_to_fit-fits :
    (ne : Entry → Bool) (n : ℕ) (t : DramTier)
    → let u = evict_to_fit ne n t in
      (u.capacity_bytes ≡ t.capacity_bytes)
      × ((used_bytes u + n ≤ t.capacity_bytes)
          ⊎ (All (λ e. ne e ≡ true) u.am × All (λ e. ne e ≡ true) u.a1in))
evict_to_fit-fits ne n t =
    let (_, ends, same) = evict_to_fit_loops ne n t in
    let u : DramTier = evict_to_fit ne n t in
    (
      same,
      elim (trim_all-none ne n u ends) [
        | inl room ↦ inl (omega (arith, room, same))
        | inr stuck ↦ inr stuck
      ],
    )

-- Without a policy that keeps entries, that is room, when the bytes alone fit.
pub evict_to_fit-room :
    (n : ℕ) (t : DramTier)
    → IsCounted t
    → n ≤ t.capacity_bytes
    → used_bytes (evict_to_fit (λ e. false) n t) + n ≤ t.capacity_bytes
unfolding used_bytes
evict_to_fit-room n t c h = elim (evict_to_fit-fits (λ e. false) n t).1 [
  | inl room ↦ room
  | inr (no_am, no_a1in) ↦
      let d = evict_to_fit-IsCounted (λ e. false) n t c in
      omega (arith, d.a1in_counted, d.am_counted, none_kept _ no_am, none_kept _ no_a1in, h)
]
