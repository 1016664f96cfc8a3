-- ===== src/Gateway/Cors/Laws.antt =====
-- The origins that are let in are those that are configured, those of this machine, and no origin.
use Prim.Native.String.{◌++◌}
use Prim.Native.String.append
use Prim.Native.Char.{code}
use mathlib.Core.Path.{subst}
use modularis.Base.{
  is_empty-nil, Bool, true, false, not, ◌==◌, Bool-cases, eq_iff, sym, trim, String, Option, none,
  some, List, [], ◌∷◌, map, ◌≡◌, refl, ap, ◌∙◌, arith, ◌⊎◌, ◌↔◌, inl, inr, str_eq, eq_refl,
  if◌then◌else◌, is_empty, is_space, lacks, trim-trimmed, lacks-append,
}
use modularis.Gateway.Cors.{
  strip_slashes, has, normalize_origin, is_loopback_host, is_loopback_origin,
  is_allowed_cors_origin, cors_origin_handler,
}

-- The text stands in the list.
abbrev pub IsListed : String → List String → Type 0
IsListed s [] = ⊥
IsListed s (t ∷ ts) = (t ≡ s) ⊎ IsListed s ts

has-map :
    (f : String → String) (s : String) (ts : List String)
    → IsListed s ts
    → has (f s) (map f ts) ≡ true
has-map f s [] h = absurd h
has-map f s (t ∷ ts) (inl same) = rw (same, eq_refl (f s)) refl
has-map f s (t ∷ ts) (inr later) = ground (arith, has-map f s ts later)

strip_slashes-append : (s : String) → strip_slashes (s ++ "/") ≡ strip_slashes s
strip_slashes-append String.[] = ap strip_slashes (append.nil "/")
strip_slashes-append (String.◌∷◌ c s) =
    ap strip_slashes (append.cons c s "/") ∙ rw (strip_slashes-append s) refl

abbrev ends_in_slash : String → Bool
ends_in_slash String.[] = false
ends_in_slash (String.◌∷◌ c s) = if is_empty s then code c == 47 else ends_in_slash s

-- The text without the slashes at its end.
abbrev pub IsStripped : String → String → Type 0
IsStripped s r =
    (slashes : String) × (s ≡ r ++ slashes)
    × (lacks (λ c. not (c == 47)) slashes ≡ true)
    × (ends_in_slash r ≡ false)

strip_slashes-IsStripped : (s : String) → IsStripped s (strip_slashes s)
strip_slashes-IsStripped String.[] = (String.[], sym (append.nil String.[]), refl, refl)
strip_slashes-IsStripped (String.◌∷◌ c s) =
    let (slashes, whole, only, ended) = strip_slashes-IsStripped s in
    elim (Bool-cases (code c == 47)) [
      | inr other ↦ rw other (
        slashes,
        ap (String.◌∷◌ c) whole ∙ sym (append.cons c (strip_slashes s) slashes),
        only,
        ground (arith, ended),
      )
      | inl slash ↦ elim (Bool-cases (is_empty (strip_slashes s))) [
        | inl none_left ↦
            let rest : s ≡ slashes =
              whole
              ∙ (ap (λ r. r ++ slashes) (is_empty-nil (strip_slashes s) none_left)
                  ∙ append.nil slashes) in
            rw (slash, none_left)
              (
                String.◌∷◌ c s,
                sym (append.nil (String.◌∷◌ c s)),
                ground (arith, only, ap (lacks (λ d. not (d == 47))) rest),
                refl,
              )
        | inr some_left ↦
            rw (slash, some_left)
              (
                slashes,
                ap (String.◌∷◌ c) whole ∙ sym (append.cons c (strip_slashes s) slashes),
                only,
                ground (arith, ended),
              )
      ]
    ]

strip_slashes-only :
    (s : String) → lacks (λ c. not (c == 47)) s ≡ true → strip_slashes s ≡ String.[]
strip_slashes-only String.[] h = refl
strip_slashes-only (String.◌∷◌ c s) h =
    let slash : code c == 47 ≡ true = ground arith in
    rw (slash, strip_slashes-only s (ground (arith, h))) refl

strip_slashes-stripped : (r : String) → ends_in_slash r ≡ false → strip_slashes r ≡ r
strip_slashes-stripped String.[] h = refl
strip_slashes-stripped (String.◌∷◌ c String.[]) h = ground arith
strip_slashes-stripped (String.◌∷◌ c (String.◌∷◌ d s)) h =
    rw (strip_slashes-stripped (String.◌∷◌ d s) h) (ground arith)

strip_slashes-slashes :
    (r slashes : String)
    → lacks (λ c. not (c == 47)) slashes ≡ true
    → strip_slashes (r ++ slashes) ≡ strip_slashes r
strip_slashes-slashes String.[] slashes h =
    ap strip_slashes (append.nil slashes) ∙ strip_slashes-only slashes h
strip_slashes-slashes (String.◌∷◌ c r) slashes h =
    ap strip_slashes (append.cons c r slashes) ∙ rw (strip_slashes-slashes r slashes h) refl

-- There is one such text.
IsStripped-strip_slashes : (s r : String) → IsStripped s r → strip_slashes s ≡ r
IsStripped-strip_slashes s r (slashes, whole, only, ended) =
    ap strip_slashes whole ∙ (strip_slashes-slashes r slashes only ∙ strip_slashes-stripped r ended)

-- The first test that holds.
chosen :
    (a b c d : Bool) {L : Type 0}
    → (d ≡ true → L)
    → (if a then true else if b then true else if c then true else d) ≡ true
    → (a ≡ true) ⊎ ((b ≡ true) ⊎ ((c ≡ true) ⊎ L))
chosen true b c d f h = inl refl
chosen false true c d f h = inr (inl refl)
chosen false false true d f h = inr (inr (inl refl))
chosen false false false d f h = inr (inr (inr (f h)))

module _ (lower : String → String) (hostname : String → Option String) where
  -- The two origins differ in the case of their letters, the slashes at their ends and the white
  -- space around them at most.
  abbrev pub IsSameOrigin : String → String → Type 0
  IsSameOrigin s t =
      (a b : String) × IsStripped (trim s) a × IsStripped (trim t) b × (lower a ≡ lower b)

  -- An origin that is let in: no origin, an empty or null one, one that is configured, or one whose
  -- host is this machine, by name or by address.
  abbrev pub IsLetIn : List String → Option String → Type 0
  IsLetIn configured none = Unit
  IsLetIn configured (some origin) =
      (origin ≡ "")
      ⊎ ((origin ≡ "null")
          ⊎ (((t : String) × IsListed t configured × IsSameOrigin origin t)
              ⊎ ((host : String) × (hostname origin ≡ some host)
                  × IsListed (lower (trim host))
                      ("localhost" ∷ "127.0.0.1" ∷ "::1" ∷ "[::1]" ∷ []))))

  has-IsListed :
      (s : String) (ts : List String)
      → has (normalize_origin lower s) (map (normalize_origin lower) ts) ≡ true
      → (t : String) × IsListed t ts × IsSameOrigin s t
  unfolding normalize_origin
  has-IsListed s [] h = cc
  has-IsListed s (t ∷ ts) h =
      elim (Bool-cases (str_eq (lower (strip_slashes (trim t))) (lower (strip_slashes (trim s))))) [
        | inl same ↦ (
          t,
          inl refl,
          (
            strip_slashes (trim s),
            strip_slashes (trim t),
            strip_slashes-IsStripped (trim s),
            strip_slashes-IsStripped (trim t),
            sym ((eq_iff (lower (strip_slashes (trim t))) (lower (strip_slashes (trim s)))).0 same),
          ),
        )
        | inr differ ↦
            let (u, there, alike) = has-IsListed s ts (ground (arith, h)) in (u, inr there, alike)
      ]

  IsListed-has :
      (s t : String) (ts : List String)
      → IsListed t ts
      → IsSameOrigin s t
      → has (normalize_origin lower s) (map (normalize_origin lower) ts) ≡ true
  unfolding normalize_origin
  IsListed-has s t ts listed (a, b, of_s, of_t, same) =
      let alike : normalize_origin lower t ≡ normalize_origin lower s =
        rw (IsStripped-strip_slashes (trim s) a of_s, IsStripped-strip_slashes (trim t) b of_t)
          (sym same) in
      subst (λ x. has x (map (normalize_origin lower) ts) ≡ true) alike
        (has-map (normalize_origin lower) t ts listed)

  is_loopback_host-IsListed :
      (host : String)
      → is_loopback_host lower host ≡ true
        ↔ IsListed (lower (trim host)) ("localhost" ∷ "127.0.0.1" ∷ "::1" ∷ "[::1]" ∷ [])
  unfolding is_loopback_host
  is_loopback_host-IsListed host =
      let l = lower (trim host) in
      (
        λ h. elim (Bool-cases (str_eq l "localhost")) [
          | inl a ↦ inl (sym ((eq_iff l "localhost").0 a))
          | inr a ↦ elim (Bool-cases (str_eq l "127.0.0.1")) [
            | inl b ↦ inr (inl (sym ((eq_iff l "127.0.0.1").0 b)))
            | inr b ↦ elim (Bool-cases (str_eq l "::1")) [
              | inl d ↦ inr (inr (inl (sym ((eq_iff l "::1").0 d))))
              | inr d ↦ inr (inr (inr (inl (sym ((eq_iff l "[::1]").0 (rw (a, b, d) at h))))))
            ]
          ]
        ],
        λ h. elim h [
          | inl e ↦ rw (← e) refl
          | inr (inl e) ↦ rw (← e) refl
          | inr (inr (inl e)) ↦ rw (← e) refl
          | inr (inr (inr (inl e))) ↦ rw (← e) refl
          | inr (inr (inr (inr x))) ↦ absurd x
        ],
      )

  allowed_if_has :
      (configured : List String) (origin : String)
      → has (normalize_origin lower origin) (map (normalize_origin lower) configured) ≡ true
      → cors_origin_handler lower hostname configured (some origin) ≡ true
  unfolding cors_origin_handler is_allowed_cors_origin
  allowed_if_has configured origin h = ground arith

  normalize_origin-slash :
      (origin : String)
      → lacks is_space origin ≡ true
      → normalize_origin lower (origin ++ "/") ≡ normalize_origin lower origin
  unfolding normalize_origin
  normalize_origin-slash origin plain =
      rw
        (
          trim-trimmed (origin ++ "/") (lacks-append is_space origin "/" plain refl),
          trim-trimmed origin plain,
          strip_slashes-append origin,
        )
        refl

  looped :
      (origin : String)
      → is_loopback_origin lower hostname origin ≡ true
      → (host : String) × (hostname origin ≡ some host) × (is_loopback_host lower host ≡ true)
  looped origin h = go (hostname origin) refl h
    where
      go :
          (found : Option String)
          → hostname origin ≡ found
          → (elim found [ none ↦ false | some host ↦ is_loopback_host lower host ]) ≡ true
          → (host : String) × (hostname origin ≡ some host) × (is_loopback_host lower host ≡ true)
      go none e k = cc
      go (some host) e k = (host, e, k)

  -- Every origin that is configured and has no white space is let in, and so is it with a slash put at
  -- its end.
  pub cors_origin_handler-configured :
      (configured : List String) (origin : String)
      → IsListed origin configured
      → lacks is_space origin ≡ true
      → (cors_origin_handler lower hostname configured (some origin) ≡ true)
        × (cors_origin_handler lower hostname configured (some (origin ++ "/")) ≡ true)
  unfolding cors_origin_handler is_allowed_cors_origin normalize_origin
  cors_origin_handler-configured configured origin listed plain =
      let there = has-map (normalize_origin lower) origin configured listed in
      (
        allowed_if_has configured origin there,
        allowed_if_has configured (origin ++ "/") (rw (normalize_origin-slash origin plain) there),
      )

  -- An origin is let in exactly if there is none; it is empty or `null`; it differs from one that is
  -- configured in the case of its letters, the slashes at its end and the white space around it at
  -- most; or the name of its host, in lower case and without the white space around it, is
  -- localhost, 127.0.0.1, ::1 or [::1].
  pub cors_origin_handler-IsLetIn :
      (configured : List String) (origin : Option String)
      → cors_origin_handler lower hostname configured origin ≡ true ↔ IsLetIn configured origin
  unfolding cors_origin_handler is_allowed_cors_origin
  cors_origin_handler-IsLetIn configured none = (λ h. tt, λ h. refl)
  cors_origin_handler-IsLetIn configured (some origin) = (
    λ h.
        elim (chosen (is_empty origin) (str_eq origin "null")
          (has (normalize_origin lower origin) (map (normalize_origin lower) configured))
          (is_loopback_origin lower hostname origin) (looped origin) h) [
            | inl absent ↦ inl (is_empty-nil origin absent)
            | inr (inl opaque) ↦ inr (inl ((eq_iff origin "null").0 opaque))
            | inr (inr (inl listed)) ↦ inr (inr (inl (has-IsListed origin configured listed)))
            | inr (inr (inr (host, found, loopback))) ↦
                inr (inr (inr (host, found, (is_loopback_host-IsListed host).0 loopback)))
          ],
    λ h. elim h [
      | inl absent ↦ rw absent refl
      | inr (inl opaque) ↦ rw opaque refl
      | inr (inr (inl (t, listed, alike))) ↦
          allowed_if_has configured origin (IsListed-has origin t configured listed alike)
      | inr (inr (inr (host, found, named))) ↦
          let loopback = (is_loopback_host-IsListed host).1 named in
          let local : is_loopback_origin lower hostname origin ≡ true =
            rw (found, is_loopback_origin, loopback) refl in
          ground arith
    ],
  )
