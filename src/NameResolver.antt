-- ===== src/NameResolver.antt =====
-- The name resolver (src/name_resolver.c). getaddrinfo, the custom callback and the memory are
-- parameters; a list of addresses that is NULL is empty. The callback gives a list of its own
-- making.
pub mod Resolution
pub mod Destroy
mod Tests
use grpc_c.Common.{
  ℕ, ◌+◌, Bool, true, false, Option, none, some, List, [], ◌∷◌, length, take, leb, if◌then◌else◌,
}
use grpc_c.Common.Int.{ℤ, pos}
use grpc_c.Common.Memory.{Alloc}
use grpc_c.Common.Fallible.{Status, success, failure}
use grpc_c.Targets.{split_colon, atoi, default_port}

pub data ResolverType : Type 0 where
  dns static custom : ResolverType

pub record ResolvedAddress : Type 0 where
  pub address : List ℕ
  pub port : ℤ

pub record NameResolver : Type 0 where
  pub kind : ResolverType
  pub target : List ℕ
  pub addresses : List ResolvedAddress
  pub address_count : ℕ
  pub custom_resolve : Option (List ℕ → ℕ → List ResolvedAddress)
  pub user_data : ℕ

-- One entry of what getaddrinfo gives: its family, and its text by inet_ntop or NULL.
pub data Family : Type 0 where
  inet inet6 other : Family

pub record AddrInfo : Type 0 where
  pub family : Family
  pub text : Option (List ℕ)

-- `none` if getaddrinfo fails.
abbrev pub AddrLookup : Type 0
AddrLookup = List ℕ → Option (List AddrInfo)

unfoldable pub address_create : Alloc → ℕ → List ℕ → ℤ → Option ResolvedAddress
address_create alloc k address port =
    if alloc k
    then (if alloc (k + 1) then some (record { address = address; port = port }) else none)
    else none

-- The number of the heap request after an attempt to make an address.
unfoldable pub next_request : Alloc → ℕ → ℕ
next_request alloc k = if alloc k then k + 2 else k + 1

-- sizeof(hostname) and sizeof(address)
abbrev pub host_size : ℕ
host_size = 256

-- The host in its buffer and the port; `none` if the part before the colon does not fit, while a
-- target without a colon is cut.
unfoldable pub parse_target : List ℕ → Option (List ℕ × ℤ)
unfolding split_colon atoi
parse_target target = elim (split_colon target) [
  | some (host, rest) ↦ if leb host_size (length host) then none else some (host, atoi rest)
  | none ↦ some (take 255 target, pos default_port)
]

-- The text of an entry that is used.
unfoldable pub usable : AddrInfo → Option (List ℕ)
usable info = elim info.family [ inet ↦ info.text | inet6 ↦ info.text | other ↦ none ]

-- The loop over the entries; an entry for which there is no memory is left out.
unfoldable pub collect : Alloc → ℕ → ℤ → List AddrInfo → List ResolvedAddress
collect alloc k port [] = []
collect alloc k port (info ∷ rest) =
    let skip : List ResolvedAddress = collect alloc k port rest in
    let more : List ResolvedAddress = collect alloc (next_request alloc k) port rest in
    elim (usable info) [
      | none ↦ skip
      | some text ↦ elim (address_create alloc k text port) [ none ↦ more | some a ↦ a ∷ more ]
    ]

unfoldable pub dns_resolve : AddrLookup → Alloc → ℕ → List ℕ → List ResolvedAddress
unfolding parse_target collect
dns_resolve lookup alloc k target = elim (parse_target target) [
  | none ↦ []
  | some (host, port) ↦ elim (lookup host) [ none ↦ [] | some infos ↦ collect alloc k port infos ]
]

unfoldable pub static_resolve : Alloc → ℕ → List ℕ → List ResolvedAddress
unfolding parse_target address_create
static_resolve alloc k target = elim (parse_target target) [
  | none ↦ []
  | some (address, port) ↦ elim (address_create alloc k address port) [
    | none ↦ []
    | some a ↦ a ∷ []
  ]
]

-- The heap requests are for the resolver and for its copy of the target.
unfoldable pub resolver_create : Alloc → ℕ → ResolverType → Option (List ℕ) → Option NameResolver
resolver_create alloc k kind none = none
resolver_create alloc k kind (some target) =
    let made : NameResolver = record {
      kind = kind;
      target = target;
      addresses = [];
      address_count = 0;
      custom_resolve = none;
      user_data = 0;
    } in
    if alloc k then (if alloc (k + 1) then some made else none) else none

unfoldable pub resolve_by : AddrLookup → Alloc → ℕ → NameResolver → List ResolvedAddress
unfolding dns_resolve static_resolve
resolve_by lookup alloc k r = elim r.kind [
  | dns ↦ dns_resolve lookup alloc k r.target
  | static ↦ static_resolve alloc k r.target
  | custom ↦ elim r.custom_resolve [ none ↦ [] | some resolve ↦ resolve r.target r.user_data ]
]

-- The end of grpc_name_resolver_resolve, on a resolver whose addresses were cleared.
unfoldable pub install : NameResolver → List ResolvedAddress → NameResolver × Status
install r [] = (r, failure)
install r (a ∷ as') = (record r { addresses = a ∷ as'; address_count = length (a ∷ as') }, success)

unfoldable pub resolve : AddrLookup → Alloc → ℕ → NameResolver → NameResolver × Status
unfolding resolve_by install
resolve lookup alloc k r =
    install (record r { addresses = []; address_count = 0 }) (resolve_by lookup alloc k r)

unfoldable pub get_addresses : NameResolver → List ResolvedAddress
get_addresses r = r.addresses

unfoldable pub get_address_count : NameResolver → ℕ
get_address_count r = r.address_count

unfoldable pub set_custom_resolver :
    NameResolver → Option (List ℕ → ℕ → List ResolvedAddress) → ℕ → NameResolver × Status
set_custom_resolver r none user_data = (r, failure)
set_custom_resolver r (some resolve) user_data =
    (record r { custom_resolve = some resolve; user_data = user_data }, success)
