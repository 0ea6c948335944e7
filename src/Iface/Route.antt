-- ===== src/Iface/Route.antt =====
-- iface/route.rs: the routing table.
--
-- The table is a `heapless::Vec`, which is not part of this repository: its operations are a
-- parameter. A CIDR block (wire/ip.rs, wire/ipv4.rs, wire/ipv6.rs) is an address, as a number, and the
-- length of its prefix. `none` is a panic.
pub mod BoundedVec
pub mod Lookup
use smoltcp.Prelude.{
  ℕ, zero, suc, ◌+◌, ◌-◌, ◌*◌, ◌/◌, ◌^◌, Bool, true, false, ◌&&◌, not, Option, none, some, List, [],
  ◌∷◌, ltb, leb, ◌==◌, if◌then◌else◌, Result, ok, err, Checked, get_elem?,
}
use smoltcp.Wire.Ip.{IpAddress, is_unicast}
use smoltcp.Iface.Route.BoundedVec as Bounded

-- `wire::IpCidr`
pub data IpCidr : Type 0 where
  cidr_v4 cidr_v6 : ℕ → ℕ → IpCidr

abbrev pub prefix_len : IpCidr → ℕ
prefix_len (IpCidr.cidr_v4 addr prefix) = prefix
prefix_len (IpCidr.cidr_v6 addr prefix) = prefix

-- `Ipv4Cidr::contains_addr`, by a shift to the right.
abbrev contains_v4 : ℕ → ℕ → ℕ → Bool
contains_v4 address prefix addr =
    if prefix == 0 then true else address / 2 ^ (32 - prefix) == addr / 2 ^ (32 - prefix)

-- `Ipv6Address::mask`: the octets behind the prefix, and the bits of the one it ends in, are cleared.
abbrev mask_v6 : ℕ → ℕ → ℕ
mask_v6 prefix addr = addr / 2 ^ (128 - prefix) * 2 ^ (128 - prefix)

abbrev contains_v6 : ℕ → ℕ → ℕ → Bool
contains_v6 address prefix addr =
    if prefix == 0 then true else mask_v6 prefix address == mask_v6 prefix addr

-- `IpCidr::contains_addr`
unfoldable pub contains_addr : IpCidr → IpAddress → Bool
contains_addr (IpCidr.cidr_v4 address prefix) (IpAddress.ipv4 addr) =
    contains_v4 address prefix addr
contains_addr (IpCidr.cidr_v6 address prefix) (IpAddress.ipv6 addr) =
    contains_v6 address prefix addr
contains_addr (IpCidr.cidr_v4 address prefix) (IpAddress.ipv6 addr) = false
contains_addr (IpCidr.cidr_v6 address prefix) (IpAddress.ipv4 addr) = false

abbrev pub cidr_eq : IpCidr → IpCidr → Bool
cidr_eq (IpCidr.cidr_v4 a p) (IpCidr.cidr_v4 b q) = (a == b) && (p == q)
cidr_eq (IpCidr.cidr_v6 a p) (IpCidr.cidr_v6 b q) = (a == b) && (p == q)
cidr_eq (IpCidr.cidr_v4 a p) (IpCidr.cidr_v6 b q) = false
cidr_eq (IpCidr.cidr_v6 a p) (IpCidr.cidr_v4 b q) = false

pub record Route : Type 0 where
  pub cidr : IpCidr
  pub via_router : IpAddress
  pub preferred_until : Option ℕ
  pub expires_at : Option ℕ

abbrev pub ipv4_default : IpCidr
ipv4_default = IpCidr.cidr_v4 0 0

abbrev pub ipv6_default : IpCidr
ipv6_default = IpCidr.cidr_v6 0 0

abbrev pub new_ipv4_gateway : ℕ → Route
new_ipv4_gateway gateway = record {
  cidr = ipv4_default;
  via_router = IpAddress.ipv4 gateway;
  preferred_until = none;
  expires_at = none;
}

abbrev pub new_ipv6_gateway : ℕ → Route
new_ipv6_gateway gateway = record {
  cidr = ipv6_default;
  via_router = IpAddress.ipv6 gateway;
  preferred_until = none;
  expires_at = none;
}

-- "Keep only matching routes."
abbrev expired : Option ℕ → ℕ → Bool
expired none timestamp = false
expired (some expires_at) timestamp = ltb expires_at timestamp

abbrev pub matches : IpAddress → ℕ → Route → Bool
matches addr timestamp route =
    if expired route.expires_at timestamp then false else contains_addr route.cidr addr

-- `max_by_key` of what the filter keeps: the last of the most specific.
abbrev pub more_specific : Route → Option Route → Option Route
more_specific route none = some route
more_specific route (some best) =
    if ltb (prefix_len route.cidr) (prefix_len best.cidr) then some best else some route

abbrev pub best_match : IpAddress → ℕ → List Route → Option Route → Option Route
best_match addr timestamp [] best = best
best_match addr timestamp (route ∷ routes) best =
    best_match addr timestamp routes
      (if matches addr timestamp route then more_specific route best else best)

abbrev pub via : Option Route → Option IpAddress
via none = none
via (some route) = some route.via_router

abbrev pub next_position : Option ℕ → Option ℕ
next_position none = none
next_position (some i) = some (suc i)

-- The position of the first route with a block.
abbrev pub find_cidr : IpCidr → List Route → Option ℕ
find_cidr cidr [] = none
find_cidr cidr (route ∷ routes) =
    let later = next_position (find_cidr cidr routes) in
    if cidr_eq route.cidr cidr then some 0 else later

pub data RouteTableFull : Type 0 where
  table_full : RouteTableFull

module _ (vec : Bounded.BoundedVec Route) where
  pub record Routes : Type 0 where
    pub storage : vec.Vec

  abbrev pub new : Routes
  new = record { storage = vec.empty }

  abbrev pub update : (vec.Vec → vec.Vec) → Routes → Routes
  update f routes = record { storage = f routes.storage }

  -- `remove_default_ipv4_route` and `remove_default_ipv6_route`, by their block.
  abbrev pub removed : Option ℕ → Routes → Option Route × Routes
  removed none routes = (none, routes)
  removed (some i) routes =
      let (route, storage) = vec.remove i routes.storage in (route, record { storage = storage })

  unfoldable pub remove_default : IpCidr → Routes → Option Route × Routes
  remove_default cidr routes = removed (find_cidr cidr (vec.iter routes.storage)) routes

  abbrev pub remove_default_ipv4_route : Routes → Option Route × Routes
  remove_default_ipv4_route = remove_default ipv4_default

  abbrev pub remove_default_ipv6_route : Routes → Option Route × Routes
  remove_default_ipv6_route = remove_default ipv6_default

  -- The result of `push`.
  abbrev pub pushed :
      Option Route
      → Result Route (Unit {0})
      → vec.Vec
      → Result RouteTableFull (Option Route) × Routes
  pushed old (ok _) storage = (ok old, record { storage = storage })
  pushed old (err _) storage = (err RouteTableFull.table_full, record { storage = storage })

  unfoldable pub add_default :
      IpCidr → Route → Routes → Result RouteTableFull (Option Route) × Routes
  unfolding remove_default
  add_default cidr route routes =
      let (old, rest) = remove_default cidr routes in
      let (result, storage) = vec.push route rest.storage in pushed old result storage

  unfoldable pub add_default_ipv4_route : ℕ → Routes → Result RouteTableFull (Option Route) × Routes
  unfolding add_default
  add_default_ipv4_route gateway = add_default ipv4_default (new_ipv4_gateway gateway)

  unfoldable pub add_default_ipv6_route : ℕ → Routes → Result RouteTableFull (Option Route) × Routes
  unfolding add_default
  add_default_ipv6_route gateway = add_default ipv6_default (new_ipv6_gateway gateway)

  unfoldable pub lookup : IpAddress → ℕ → Routes → Checked (Option IpAddress)
  lookup addr timestamp routes =
      if is_unicast addr
      then some (via (best_match addr timestamp (vec.iter routes.storage) none))
      else none
