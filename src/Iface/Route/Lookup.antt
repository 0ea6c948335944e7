-- ===== src/Iface/Route/Lookup.antt =====
-- iface/route.rs: the route that `lookup` picks, and the default routes.
use smoltcp.Prelude.{
  ℕ, zero, suc, ◌≤◌, ◌<◌, ◌≡◌, ◌≢◌, ◌⊎◌, inl, inr, refl, sym, ap, ◌∙◌, true, false, Option, none,
  some, List, [], ◌∷◌, ◌++◌, ltb, if◌then◌else◌, Result, ok, err, length, get_elem?, arith, subst,
  Bool-cases,
}
use mathlib.Core.Path.{ap₂}
use smoltcp.Wire.Ip.{IpAddress, is_unicast}
use smoltcp.Iface.Route.BoundedVec.{BoundedVec, IsBoundedVec, without}
use smoltcp.Iface.Route.{
  IpCidr, prefix_len, Route, matches, more_specific, best_match, via, find_cidr, next_position,
  cidr_eq, RouteTableFull, Routes, removed, remove_default, pushed, add_default, new_ipv4_gateway,
  ipv4_default, add_default_ipv4_route, lookup,
}

pub data Has (route : Route) : List Route → Type 0 where
  here : {rest : List Route} → Has route (route ∷ rest)
  there : {other : Route} {rest : List Route} → Has route rest → Has route (other ∷ rest)

module _ (addr : IpAddress) (timestamp : ℕ) where
  -- Of some routes, the most specific that matches, or that none does.
  pub data Best (among : Route → Type 0) : Option Route → Type 0 where
    unrouted : ((r : Route) → among r → matches addr timestamp r ≡ false) → Best among none
    routed :
        {route : Route}
        → among route
        → matches addr timestamp route ≡ true
        → ((r : Route)
            → among r
            → matches addr timestamp r ≡ true
            → prefix_len r.cidr ≤ prefix_len route.cidr)
        → Best among (some route)

  Best-convert :
      (S T : Route → Type 0) (o : Option Route)
      → ((r : Route) → S r → T r)
      → ((r : Route) → T r → S r)
      → Best S o
      → Best T o
  Best-convert S T o f g (Best.unrouted h) = Best.unrouted (λ r t. h r (g r t))
  Best-convert S T o f g (Best.routed {route} s m h) =
      Best.routed (f route s) m (λ r t. h r (g r t))

  both : (r : Route) → matches addr timestamp r ≡ true → matches addr timestamp r ≡ false → ⊥
  both r t f = let e : true ≡ false = sym t ∙ f in cc

  -- One more route is looked at.
  Best-step :
      (S : Route → Type 0) (route : Route) (best : Option Route)
      → Best S best
      → Best
          (λ r. S r ⊎ (r ≡ route))
          (if matches addr timestamp route then more_specific route best else best)
  Best-step S route best b = elim (Bool-cases (matches addr timestamp route)) [
    | inr f ↦ rw f (unmatched b f)
    | inl t ↦ rw t (matched b t)
  ]
    where
      is_route :
          (r : Route)
          → r ≡ route
          → matches addr timestamp route ≡ false
          → matches addr timestamp r ≡ false
      is_route r e f = subst (λ r. matches addr timestamp r ≡ false) (sym e) f

      unmatched :
          {best : Option Route}
          → Best S best
          → matches addr timestamp route ≡ false
          → Best (λ r. S r ⊎ (r ≡ route)) best
      unmatched (Best.unrouted h) f =
          Best.unrouted (λ r s. elim s [ inl s' ↦ h r s' | inr e ↦ is_route r e f ])
      unmatched (Best.routed s m h) f = Best.routed (inl s) m (λ r s' m'. elim s' [
        | inl old ↦ h r old m'
        | inr e ↦ absurd (both r m' (is_route r e f))
      ])

      matched :
          {best : Option Route}
          → Best S best
          → matches addr timestamp route ≡ true
          → Best (λ r. S r ⊎ (r ≡ route)) (more_specific route best)
      matched (Best.unrouted h) t = Best.routed (inr refl) t (λ r s m. elim s [
        | inl old ↦ absurd (both r m (h r old))
        | inr e ↦ subst (λ x. prefix_len r.cidr ≤ prefix_len x.cidr) e (omega arith)
      ])
      matched (Best.routed {route = kept} s m h) t =
          elim (Bool-cases (ltb (prefix_len route.cidr) (prefix_len kept.cidr))) [
            | inl less ↦
                let lower : prefix_len route.cidr < prefix_len kept.cidr = ground arith in
                rw less (
                  Best.routed (inl s) m (λ r s' m'. elim s' [
                    | inl old ↦ h r old m'
                    | inr e ↦
                        subst (λ x. prefix_len x.cidr ≤ prefix_len kept.cidr) (sym e) (omega arith)
                  ]))
            | inr not_less ↦
                let higher : prefix_len kept.cidr ≤ prefix_len route.cidr = ground arith in
                rw not_less (
                  Best.routed (inr refl) t (λ r s' m'. elim s' [
                    | inl old ↦ let b = h r old m' in omega arith
                    | inr e ↦ subst (λ x. prefix_len r.cidr ≤ prefix_len x.cidr) e (omega arith)
                  ]))
          ]

  best_match-Best :
      (S : Route → Type 0) (routes : List Route) (best : Option Route)
      → Best S best
      → Best (λ r. S r ⊎ Has r routes) (best_match addr timestamp routes best)
  best_match-Best S [] best b =
      Best-convert S (λ r. S r ⊎ Has r []) best (λ r s. inl s)
        (λ r s. elim s [ inl old ↦ old | inr h ↦ elim h [ ] ]) b
  best_match-Best S (route ∷ routes) best b =
      Best-convert (λ r. (S r ⊎ (r ≡ route)) ⊎ Has r routes) (λ r. S r ⊎ Has r (route ∷ routes))
        (best_match addr timestamp (route ∷ routes) best) forth back
        (best_match-Best (λ r. S r ⊎ (r ≡ route)) routes
          (if matches addr timestamp route then more_specific route best else best)
          (Best-step S route best b))
    where
      forth : (r : Route) → (S r ⊎ (r ≡ route)) ⊎ Has r routes → S r ⊎ Has r (route ∷ routes)
      forth r (inl (inl s)) = inl s
      forth r (inl (inr e)) = inr (subst (λ x. Has r (x ∷ routes)) e Has.here)
      forth r (inr h) = inr (Has.there h)

      back : (r : Route) → S r ⊎ Has r (route ∷ routes) → (S r ⊎ (r ≡ route)) ⊎ Has r routes
      back r (inl s) = inl (inl s)
      back r (inr Has.here) = inl (inr refl)
      back r (inr (Has.there h)) = inr h

length-without :
    {A : Type 0} (i : ℕ) (xs : List A) → i < length xs → suc (length (without i xs)) ≡ length xs
length-without i [] h = absurd (omega arith)
length-without zero (x ∷ xs) h = refl
length-without (suc i) (x ∷ xs) h = ap suc (length-without i xs (omega arith))

abbrev InBounds : ℕ → Option ℕ → Type 0
InBounds n none = Unit
InBounds n (some i) = i < n

next_position-InBounds : (n : ℕ) (o : Option ℕ) → InBounds n o → InBounds (suc n) (next_position o)
next_position-InBounds n none h = tt
next_position-InBounds n (some i) h = omega arith

find_cidr-InBounds :
    (cidr : IpCidr) (entries : List Route) → InBounds (length entries) (find_cidr cidr entries)
find_cidr-InBounds cidr [] = tt
find_cidr-InBounds cidr (route ∷ entries) =
    let ih = find_cidr-InBounds cidr entries in
    elim (Bool-cases (cidr_eq route.cidr cidr)) [
      | inl t ↦ rw t (omega arith)
      | inr f ↦ rw f (next_position-InBounds (length entries) (find_cidr cidr entries) ih)
    ]

abbrev pub rest_of : Option ℕ → List Route → List Route
rest_of none entries = entries
rest_of (some i) entries = without i entries

abbrev pub old_of : Option ℕ → List Route → Option Route
old_of none entries = none
old_of (some i) entries = get_elem? entries i

-- The first route with a block is taken out of some routes, if there is one.
pub data Drops (cidr : IpCidr) : List Route → Option Route → List Route → Type 0 where
  nothing : Drops cidr [] none []
  found : {r : Route} {rest : List Route} → r.cidr ≡ cidr → Drops cidr (r ∷ rest) (some r) rest
  later :
      {r : Route} {rest left : List Route} {old : Option Route}
      → r.cidr ≢ cidr
      → Drops cidr rest old left
      → Drops cidr (r ∷ rest) old (r ∷ left)

address_of : IpCidr → ℕ
address_of (IpCidr.cidr_v4 a p) = a
address_of (IpCidr.cidr_v6 a p) = a

cidr_eq-true : (c d : IpCidr) → cidr_eq c d ≡ true → c ≡ d
cidr_eq-true (IpCidr.cidr_v4 a p) (IpCidr.cidr_v4 b q) t =
    ap₂ IpCidr.cidr_v4 {x = a} {y = b} (ground arith) (ground arith)
cidr_eq-true (IpCidr.cidr_v6 a p) (IpCidr.cidr_v6 b q) t =
    ap₂ IpCidr.cidr_v6 {x = a} {y = b} (ground arith) (ground arith)
cidr_eq-true (IpCidr.cidr_v4 a p) (IpCidr.cidr_v6 b q) t = cc
cidr_eq-true (IpCidr.cidr_v6 a p) (IpCidr.cidr_v4 b q) t = cc

cidr_eq_refl : (c : IpCidr) → cidr_eq c c ≡ true
cidr_eq_refl (IpCidr.cidr_v4 a p) = ground arith
cidr_eq_refl (IpCidr.cidr_v6 a p) = ground arith

cidr_eq-false : (c d : IpCidr) → cidr_eq c d ≡ false → c ≢ d
cidr_eq-false c d f e =
    let t : cidr_eq c d ≡ true = subst (λ x. cidr_eq c x ≡ true) e (cidr_eq_refl c) in cc

Drops-next :
    (cidr : IpCidr) (r : Route) (entries : List Route) (o : Option ℕ)
    → r.cidr ≢ cidr
    → Drops cidr entries (old_of o entries) (rest_of o entries)
    → Drops cidr
        (r ∷ entries)
        (old_of (next_position o) (r ∷ entries))
        (rest_of (next_position o) (r ∷ entries))
Drops-next cidr r entries none n d = Drops.later n d
Drops-next cidr r entries (some i) n d = Drops.later n d

find_cidr-Drops :
    (cidr : IpCidr) (entries : List Route)
    → Drops cidr entries
        (old_of (find_cidr cidr entries) entries)
        (rest_of (find_cidr cidr entries) entries)
find_cidr-Drops cidr [] = Drops.nothing
find_cidr-Drops cidr (route ∷ entries) =
    let ih = find_cidr-Drops cidr entries in
    elim (Bool-cases (cidr_eq route.cidr cidr)) [
      | inl t ↦ rw t (Drops.found (cidr_eq-true route.cidr cidr t))
      | inr f ↦ rw f (
          Drops-next cidr route entries (find_cidr cidr entries) (cidr_eq-false route.cidr cidr f)
            ih)
    ]

module _ (vec : BoundedVec Route) where
  -- A unicast address is routed by a matching route that no other matching route is more specific
  -- than, and not at all only if no route of the table matches.
  pub lookup-Best :
      (addr : IpAddress) (timestamp : ℕ) (routes : Routes vec)
      → is_unicast addr ≡ true
      → (o : Option Route) × (lookup vec addr timestamp routes ≡ some (via o))
        × Best addr timestamp (λ r. Has r (vec.iter routes.storage)) o
  unfolding lookup
  lookup-Best addr timestamp routes unicast =
      let entries = vec.iter routes.storage in
      (
        best_match addr timestamp entries none,
        rw unicast refl,
        Best-convert addr timestamp (λ r. ⊥ ⊎ Has r entries) (λ r. Has r entries) _
            (λ r s. elim s [ inl e ↦ absurd e | inr h ↦ h ]) (λ r h. inr h)
            (best_match-Best addr timestamp (λ r. ⊥) entries none
              (Best.unrouted (λ r e. absurd e))),
      )

  module _ (law : IsBoundedVec vec) where
    -- What the two steps of `add_default` do, by what was found.
    Replaced :
        Option ℕ → Route → Routes vec → Result RouteTableFull (Option Route) × Routes vec → Type 0
    Replaced o route routes out =
        ((routes' : Routes vec) × (out ≡ (ok (old_of o (vec.iter routes.storage)), routes'))
          × (vec.iter routes'.storage ≡ rest_of o (vec.iter routes.storage) ++ (route ∷ [])))
        ⊎ ((o ≡ none)
            × (length (vec.iter routes.storage) ≡ vec.capacity)
            × (out ≡ (err RouteTableFull.table_full, routes)))

    pushed-Replaced :
        (route : Route) (routes : Routes vec) (o : Option ℕ)
        → InBounds (length (vec.iter routes.storage)) o
        → Replaced o route routes (
            pushed vec
              (removed vec o routes).0
              (vec.push route (removed vec o routes).1.storage).0
              (vec.push route (removed vec o routes).1.storage).1)
    unfolding Replaced
    pushed-Replaced route routes none h = elim (law.bounded routes.storage) [
      | inl room ↦
          let (result, entries) = law.push_room route routes.storage room in
          inl (record { storage = (vec.push route routes.storage).1 }, rw result refl, entries)
      | inr full ↦ let e = law.push_full route routes.storage full in inr (refl, full, rw e refl)
    ]
    pushed-Replaced route routes (some i) h =
        let v = (vec.remove i routes.storage).1 in
        let (old, left) = law.remove_lem i routes.storage h in
        let shorter = length-without i (vec.iter routes.storage) h in
        let same : length (vec.iter v) ≡ length (without i (vec.iter routes.storage)) =
          ap length left in
        let room : length (vec.iter v) < vec.capacity = elim (law.bounded routes.storage) [
          | inl l ↦ omega arith
          | inr l ↦ omega arith
        ] in
        let (result, entries) = law.push_room route v room in
        inl (
          record { storage = (vec.push route v).1 },
          rw (result, old) refl,
          entries ∙ ap (λ t. t ++ (route ∷ [])) left,
        )

    -- A default IPv4 route is replaced: the first route to the default block, if there is one, is
    -- removed and returned, and the new one is appended. Only where there is none and the table is
    -- full it is refused, and the table stays as it is.
    pub add_default_ipv4_route_lem :
        (gateway : ℕ) (routes : Routes vec)
        → ((old : Option Route) × (left : List Route) × (routes' : Routes vec) × Drops ipv4_default
              (vec.iter routes.storage)
              old
              left
            × (add_default_ipv4_route vec gateway routes ≡ (ok old, routes'))
            × (vec.iter routes'.storage ≡ left ++ (new_ipv4_gateway gateway ∷ [])))
          ⊎ (Drops ipv4_default (vec.iter routes.storage) none (vec.iter routes.storage)
              × (length (vec.iter routes.storage) ≡ vec.capacity)
              × (add_default_ipv4_route vec gateway routes
                  ≡ (err RouteTableFull.table_full, routes)))
    unfolding add_default_ipv4_route add_default remove_default Replaced
    add_default_ipv4_route_lem gateway routes =
        let entries = vec.iter routes.storage in
        let drops = find_cidr-Drops ipv4_default entries in
        elim (pushed-Replaced (new_ipv4_gateway gateway) routes (find_cidr ipv4_default entries)
          (find_cidr-InBounds ipv4_default entries)) [
            | inl (routes', e, it) ↦ inl (_, _, routes', drops, e, it)
            | inr (e, full, out) ↦ inr (
              subst (λ o. Drops ipv4_default entries (old_of o entries) (rest_of o entries)) e
                  drops,
              full,
              out,
            )
          ]
