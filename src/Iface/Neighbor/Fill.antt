-- ===== src/Iface/Neighbor/Fill.antt =====
-- iface/neighbor.rs: what a filled cache answers.
use smoltcp.Prelude.{
  ℕ, ◌+◌, ◌≤◌, ◌<◌, ◌≡◌, ◌≢◌, ◌⊎◌, inl, inr, refl, sym, ap, ◌∙◌, Bool, true, false, ◌&&◌, ◌==◌,
  Option, none, some, List, [], ◌∷◌, ltb, if◌then◌else◌, Result, ok, err, Checked, length, arith,
  subst, Bool-cases,
}
use smoltcp.Wire.Ip.{IpAddress, is_unicast}
use smoltcp.Iface.Neighbor.LinearMap.{LinearMapOps, IsLinearMap, Has}
use smoltcp.Iface.Neighbor.{
  Neighbor, Answer, entry_lifetime, sooner, after_insert, oldest_of, oldest, Cache,
  evict_and_insert, insert_neighbor, fill_with_expiration, fill, lookup,
}

abbrev value : IpAddress → ℕ
value (IpAddress.ipv4 a) = a
value (IpAddress.ipv6 a) = a

number : (a b : ℕ) → (a == b) ≡ false → a ≡ b → ⊥
number a b f e = ground arith

addr-cases : (a b : IpAddress) → (a ≡ b) ⊎ (a ≢ b)
addr-cases (IpAddress.ipv4 a) (IpAddress.ipv4 b) = elim (Bool-cases (a == b)) [
  | inl t ↦ inl (ap IpAddress.ipv4 (ground arith))
  | inr f ↦ inr (λ e. number a b f (ap value e))
]
addr-cases (IpAddress.ipv6 a) (IpAddress.ipv6 b) = elim (Bool-cases (a == b)) [
  | inl t ↦ inl (ap IpAddress.ipv6 (ground arith))
  | inr f ↦ inr (λ e. number a b f (ap value e))
]
addr-cases (IpAddress.ipv4 a) (IpAddress.ipv6 b) = inr (λ e. cc)
addr-cases (IpAddress.ipv6 a) (IpAddress.ipv4 b) = inr (λ e. cc)

module _ {H : Type 0} where
  sooner-cases :
      (a b : IpAddress × Neighbor H)
      → ((sooner a b ≡ a) ⊎ (sooner a b ≡ b))
        × ((sooner a b).1.expires_at ≤ a.1.expires_at)
        × ((sooner a b).1.expires_at ≤ b.1.expires_at)
  sooner-cases a b = elim (Bool-cases (ltb a.1.expires_at b.1.expires_at)) [
    | inl t ↦
        let h : a.1.expires_at < b.1.expires_at = ground arith in
        rw t (inl refl, omega arith, omega arith)
    | inr f ↦
        let h : b.1.expires_at ≤ a.1.expires_at = ground arith in rw f (inr refl, h, omega arith)
  ]

  -- The oldest entry is one of the entries.
  oldest_of-Has :
      (best : IpAddress × Neighbor H) (entries : List (IpAddress × Neighbor H))
      → (oldest_of best entries ≡ best)
        ⊎ Has (oldest_of best entries).0 (oldest_of best entries).1 entries
  oldest_of-Has best [] = inl refl
  oldest_of-Has best (entry ∷ entries) =
      let (which, _, _) = sooner-cases entry best in
      elim (oldest_of-Has (sooner entry best) entries) [
        | inr h ↦ inr (Has.there h)
        | inl e ↦ elim which [
          | inl c ↦ inr (subst (λ p. Has p.0 p.1 (entry ∷ entries)) (sym (e ∙ c)) Has.here)
          | inr c ↦ inl (e ∙ c)
        ]
      ]

  among :
      {t : ℕ} (entry : IpAddress × Neighbor H) (entries : List (IpAddress × Neighbor H))
      (k : IpAddress) (n : Neighbor H)
      → Has k n (entry ∷ entries)
      → t ≤ entry.1.expires_at
      → ((k : IpAddress) (n : Neighbor H) → Has k n entries → t ≤ n.expires_at)
      → t ≤ n.expires_at
  among entry entries k n Has.here b ih = b
  among entry entries k n (Has.there h) b ih = ih k n h

  -- No entry expires before the oldest.
  oldest_of-least :
      (best : IpAddress × Neighbor H) (entries : List (IpAddress × Neighbor H))
      → ((oldest_of best entries).1.expires_at ≤ best.1.expires_at)
        × ((k : IpAddress) (n : Neighbor H)
            → Has k n entries
            → (oldest_of best entries).1.expires_at ≤ n.expires_at)
  oldest_of-least best [] = (omega arith, λ k n h. elim h [ ])
  oldest_of-least best (entry ∷ entries) =
      let (_, first, second) = sooner-cases entry best in
      let (b, ih) = oldest_of-least (sooner entry best) entries in
      (omega arith, λ k n h. among entry entries k n h (omega arith) ih)

  -- Of a list that is not empty, the oldest entry.
  pub record Oldest (entries : List (IpAddress × Neighbor H)) : Type 0 where
    pub addr : IpAddress
    pub neighbor : Neighbor H
    pub oldest_lem : oldest entries ≡ some (addr, neighbor)
    pub member : Has addr neighbor entries
    pub least :
        (k : IpAddress) (n : Neighbor H) → Has k n entries → neighbor.expires_at ≤ n.expires_at

  find-Oldest : (entries : List (IpAddress × Neighbor H)) → 0 < length entries → Oldest entries
  find-Oldest [] h = absurd (omega arith)
  find-Oldest (entry ∷ entries) h =
      let (b, ih) = oldest_of-least entry entries in
      record {
        addr = (oldest_of entry entries).0;
        neighbor = (oldest_of entry entries).1;
        oldest_lem = refl;
        member = elim (oldest_of-Has entry entries) [
          | inl e ↦ subst (λ p. Has p.0 p.1 (entry ∷ entries)) (sym e) Has.here
          | inr m ↦ Has.there m
        ];
        least = λ k n m. among entry entries k n m b ih;
      }

module _ {H : Type 0} (hardware_is_unicast : H → Bool) (map : LinearMapOps IpAddress (Neighbor H))
    (law : IsLinearMap map) where
  -- What has become of the entries of the other addresses: all are as they were, or, for an address
  -- that is new to a full cache, all but one, before which no entry of the cache was to expire.
  pub data Others (cache : Cache hardware_is_unicast map) (p : IpAddress) (m' : map.Map)
      : Type 0 where
    kept : ((q : IpAddress) → q ≢ p → map.get q m' ≡ map.get q cache.storage) → Others cache p m'
    evicted :
        (v : IpAddress) (n : Neighbor H)
        → map.get p cache.storage ≡ none
        → length (map.iter cache.storage) ≡ map.capacity
        → map.get v cache.storage ≡ some n
        → map.get v m' ≡ none
        → ((k : IpAddress) (n' : Neighbor H)
            → Has k n' (map.iter cache.storage)
            → n.expires_at ≤ n'.expires_at)
        → ((q : IpAddress) → q ≢ p → q ≢ v → map.get q m' ≡ map.get q cache.storage)
        → Others cache p m'

  -- A neighbor was inserted: its address has it, every other address has what it had, but for one at
  -- most that was evicted.
  pub record Inserted (cache : Cache hardware_is_unicast map) (p : IpAddress)
      (neighbor : Neighbor H) (cache' : Cache hardware_is_unicast map) : Type 0 where
    pub has : map.get p cache'.storage ≡ some neighbor
    pub others : Others cache p cache'.storage
    pub silent : cache'.silent_until ≡ cache.silent_until

  -- What a call that returns has done.
  Done :
      Cache hardware_is_unicast map
      → IpAddress
      → Neighbor H
      → Checked (Cache hardware_is_unicast map)
      → Type 0
  Done cache p neighbor result =
      (cache' : Cache hardware_is_unicast map) × (result ≡ some cache')
      × Inserted cache p neighbor cache'

  evict_and_insert-Done :
      (cache : Cache hardware_is_unicast map) (p : IpAddress) (neighbor : Neighbor H)
      → 0 < map.capacity
      → map.get p cache.storage ≡ none
      → length (map.iter cache.storage) ≡ map.capacity
      → Done cache p neighbor (evict_and_insert hardware_is_unicast map p neighbor cache)
  unfolding evict_and_insert Done
  evict_and_insert-Done cache p neighbor some_room absent full =
      let m = cache.storage in
      let o = find-Oldest (map.iter m) (omega arith) in
      let there = law.iter_get o.addr o.neighbor m o.member in
      let (removed, gone, rest) = law.remove_lem o.addr m in
      let m2 = (map.remove o.addr m).1 in
      let shorter = law.remove_length o.addr o.neighbor m there in
      let (old, m3, e) = law.insert_room p neighbor m2 (omega arith) in
      let (old_lem, has, others) = law.insert_ok p neighbor m2 m3 old e in
      let differs : p ≢ o.addr =
        λ q. some_none (sym there ∙ ap (λ k. map.get k m) (sym q) ∙ absent) in
      let nothing : old ≡ none = old_lem ∙ rest p differs ∙ absent in
      (
        record cache { storage = m3 },
        rw (o.oldest_lem, removed ∙ there, e, nothing) refl,
        record {
          has = has;
          others =
              Others.evicted o.addr o.neighbor absent full there
                (others o.addr (λ q. differs (sym q)) ∙ gone) o.least
                (λ q d away. others q d ∙ rest q away);
          silent = refl;
        },
      )
    where
      some_none : {n : Neighbor H} → some n ≡ none → ⊥
      some_none h = cc

  after_insert-Done :
      (cache : Cache hardware_is_unicast map) (p : IpAddress) (neighbor : Neighbor H)
      (r : Result (IpAddress × Neighbor H) (Option (Neighbor H))) (m' : map.Map)
      → 0 < map.capacity
      → map.insert p neighbor cache.storage ≡ (r, m')
      → Done cache p neighbor (after_insert hardware_is_unicast map cache r m')
  unfolding after_insert Done
  after_insert-Done cache p neighbor (ok old) m' some_room e =
      let (_, has, others) = law.insert_ok p neighbor cache.storage m' old e in
      (
        record cache { storage = m' },
        refl,
        record { has = has; others = Others.kept others; silent = refl },
      )
  after_insert-Done cache p neighbor (err back) m' some_room e =
      let (same, kept_, absent, full) = law.insert_err p neighbor cache.storage m' back e in
      subst (Done cache p neighbor)
        (λ i.
          evict_and_insert hardware_is_unicast map (sym same i).0 (sym same i).1
            (record cache { storage = sym kept_ i }))
        (evict_and_insert-Done cache p neighbor some_room absent full)

  -- In a cache with room for an entry at least, a unicast neighbor can always be filled in: its address
  -- then has it, until the lifetime of an entry has passed since. All other addresses have what they
  -- had, but for one that may be evicted: only if the address is new to a full cache, and none expires
  -- before the one that is evicted.
  pub fill_lem :
      (cache : Cache hardware_is_unicast map) (p : IpAddress) (h : H) (timestamp : ℕ)
      → 0 < map.capacity
      → is_unicast p ≡ true
      → hardware_is_unicast h ≡ true
      → (cache' : Cache hardware_is_unicast map) × (fill hardware_is_unicast map p h timestamp cache
          ≡ some cache')
        × Inserted cache p
            (record { hardware_addr = h; expires_at = timestamp + entry_lifetime })
            cache'
  unfolding fill fill_with_expiration insert_neighbor Done
  fill_lem cache p h timestamp some_room unicast hardware =
      let neighbor : Neighbor H = record {
        hardware_addr = h;
        expires_at = timestamp + entry_lifetime;
      } in
      let (cache', e, done) =
        after_insert-Done cache p neighbor (map.insert p neighbor cache.storage).0
          (map.insert p neighbor cache.storage).1 some_room refl in
      (cache', rw (unicast, hardware) e, done)

  -- The address that was filled in last is found, until the lifetime of an entry has passed.
  pub lookup-fill :
      (cache cache' : Cache hardware_is_unicast map) (p : IpAddress) (h : H) (timestamp now : ℕ)
      → 0 < map.capacity
      → fill hardware_is_unicast map p h timestamp cache ≡ some cache'
      → (lookup hardware_is_unicast map p now cache'
          ≡ some (
              if ltb now (timestamp + entry_lifetime)
              then Answer.found h
              else if ltb now cache.silent_until
              then Answer.rate_limited
              else Answer.not_found))
  unfolding fill fill_with_expiration lookup
  lookup-fill cache cache' p h timestamp now some_room e =
      elim (Bool-cases (is_unicast p && hardware_is_unicast h)) [
        | inr refused ↦
            let panics : fill hardware_is_unicast map p h timestamp cache ≡ none =
              rw refused refl in
            absurd (none_some (sym panics ∙ e))
        | inl both ↦
            let unicast : is_unicast p ≡ true = ground arith in
            let (c, q, done) = fill_lem cache p h timestamp some_room unicast (ground arith) in
            let same : c ≡ cache' = some-injective (sym q ∙ e) in
            subst
              (λ d.
                lookup hardware_is_unicast map p now d
                ≡ some (
                    if ltb now (timestamp + entry_lifetime)
                    then Answer.found h
                    else if ltb now cache.silent_until
                    then Answer.rate_limited
                    else Answer.not_found))
              same (rw (unicast, done.has, done.silent) refl)
      ]
    where
      none_some : {c : Cache hardware_is_unicast map} → none ≡ some c → ⊥
      none_some h = cc

      some-injective : {c d : Cache hardware_is_unicast map} → some c ≡ some d → c ≡ d
      some-injective h = cc
