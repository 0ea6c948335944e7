-- ===== src/Iface/Neighbor.antt =====
-- iface/neighbor.rs: the neighbor cache.
--
-- The map is `heapless::LinearMap`, which is not part of this repository: its operations are a
-- parameter. A hardware address is one of any type; the source only stores it and compares it for
-- its trace. `none` is a panic. The debug assertions are checked, as in the source's debug builds.
pub mod LinearMap
pub mod Fill
use smoltcp.Prelude.{
  ℕ, ◌+◌, Bool, true, false, ◌&&◌, Option, none, some, List, [], ◌∷◌, ltb, if◌then◌else◌, Result,
  ok, err, Checked, ◌>>=◌,
}
use smoltcp.Wire.Ip.{IpAddress, is_unicast}
use smoltcp.Iface.Neighbor.LinearMap.{LinearMapOps}

pub record Neighbor (H : Type 0) : Type 0 where
  pub hardware_addr : H
  pub expires_at : ℕ

pub data Answer (H : Type 0) : Type 0 where
  found : H → Answer H
  not_found rate_limited : Answer H

-- `Answer::found`
pub is_found : {H : Type 0} → Answer H → Bool
is_found (Answer.found h) = true
is_found Answer.not_found = false
is_found Answer.rate_limited = false

-- `Cache::SILENT_TIME` and `Cache::ENTRY_LIFETIME`, in microseconds.
abbrev pub silent_time : ℕ
silent_time = 1000000

abbrev pub entry_lifetime : ℕ
entry_lifetime = 60000000

-- `min_by_key(|(_, neighbor)| neighbor.expires_at)`: the first of the smallest.
abbrev pub sooner :
    {H : Type 0} → IpAddress × Neighbor H → IpAddress × Neighbor H → IpAddress × Neighbor H
sooner entry best = if ltb entry.1.expires_at best.1.expires_at then entry else best

abbrev pub oldest_of :
    {H : Type 0} → IpAddress × Neighbor H → List (IpAddress × Neighbor H) → IpAddress × Neighbor H
oldest_of best [] = best
oldest_of best (entry ∷ entries) = oldest_of (sooner entry best) entries

abbrev pub oldest : {H : Type 0} → List (IpAddress × Neighbor H) → Option (IpAddress × Neighbor H)
oldest [] = none
oldest (entry ∷ entries) = some (oldest_of entry entries)

module _ {H : Type 0} (hardware_is_unicast : H → Bool)
    (map : LinearMapOps IpAddress (Neighbor H)) where
  pub record Cache : Type 0 where
    pub storage : map.Map
    pub silent_until : ℕ

  abbrev pub new : Cache
  new = record { storage = map.empty; silent_until = 0 }

  -- The second `insert`, which must find room and no old value.
  abbrev pub inserted :
      Cache → Result (IpAddress × Neighbor H) (Option (Neighbor H)) → map.Map → Checked Cache
  inserted cache (ok none) storage = some (record cache { storage = storage })
  inserted cache (ok (some old)) storage = none
  inserted cache (err e) storage = none

  -- The cache is full: an entry is evicted.
  unfoldable pub evict_and_insert : IpAddress → Neighbor H → Cache → Checked Cache
  evict_and_insert protocol_addr neighbor cache = do
    (old_protocol_addr, _) ← oldest (map.iter cache.storage)
    let (removed, storage) = map.remove old_protocol_addr cache.storage
    _ ← removed
    let (result, storage) = map.insert protocol_addr neighbor storage
    inserted cache result storage

  -- What follows the first `insert`.
  unfoldable pub after_insert :
      Cache → Result (IpAddress × Neighbor H) (Option (Neighbor H)) → map.Map → Checked Cache
  unfolding evict_and_insert
  after_insert cache (ok old_neighbor) storage = some (record cache { storage = storage })
  after_insert cache (err (protocol_addr, neighbor)) storage =
      evict_and_insert protocol_addr neighbor (record cache { storage = storage })

  unfoldable pub insert_neighbor : IpAddress → Neighbor H → Cache → Checked Cache
  unfolding after_insert
  insert_neighbor protocol_addr neighbor cache =
      let (result, storage) = map.insert protocol_addr neighbor cache.storage in
      after_insert cache result storage

  unfoldable pub fill_with_expiration : IpAddress → H → ℕ → Cache → Checked Cache
  unfolding insert_neighbor
  fill_with_expiration protocol_addr hardware_addr expires_at cache =
      if is_unicast protocol_addr && hardware_is_unicast hardware_addr
      then insert_neighbor protocol_addr
          (record { hardware_addr = hardware_addr; expires_at = expires_at }) cache
      else none

  unfoldable pub fill : IpAddress → H → ℕ → Cache → Checked Cache
  unfolding fill_with_expiration
  fill protocol_addr hardware_addr timestamp cache =
      fill_with_expiration protocol_addr hardware_addr (timestamp + entry_lifetime) cache

  -- What `lookup` finds, for what the map has.
  abbrev pub answer : Option (Neighbor H) → ℕ → ℕ → Answer H
  answer none timestamp silent_until =
      if ltb timestamp silent_until then Answer.rate_limited else Answer.not_found
  answer (some neighbor) timestamp silent_until =
      if ltb timestamp neighbor.expires_at
      then Answer.found neighbor.hardware_addr
      else if ltb timestamp silent_until
      then Answer.rate_limited
      else Answer.not_found

  unfoldable pub lookup : IpAddress → ℕ → Cache → Checked (Answer H)
  lookup protocol_addr timestamp cache =
      if is_unicast protocol_addr
      then some (answer (map.get protocol_addr cache.storage) timestamp cache.silent_until)
      else none

  unfoldable pub limit_rate : ℕ → Cache → Cache
  limit_rate timestamp cache = record cache { silent_until = timestamp + silent_time }

  unfoldable pub flush : Cache → Cache
  flush cache = record cache { storage = map.clear cache.storage }
