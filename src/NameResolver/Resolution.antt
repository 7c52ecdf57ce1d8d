-- ===== src/NameResolver/Resolution.antt =====
-- What a resolution gives (src/name_resolver.c).
use grpc_c.Common.{
  ℕ, ◌+◌, ◌^◌, ◌<◌, ◌≡◌, ◌≢◌, refl, ap, ◌∙◌, ◌⊎◌, arith, true, none, some, List, [], ◌∷◌, ◌++◌, All,
  length, map, inl, inr,
}
use grpc_c.Common.Int.{ℤ, pos}
use grpc_c.Common.Memory.{Alloc}
use grpc_c.Common.Fallible.{Status, success, failure}
use grpc_c.Targets.{colon, split_colon}
use grpc_c.Targets.Decimal.{decimal, atoi-decimal, split_colon-append}
use grpc_c.NameResolver.{
  static, dns, ResolvedAddress, NameResolver, AddrInfo, AddrLookup, address_create, next_request,
  usable, collect, dns_resolve, static_resolve, resolve_by, install, resolve, get_addresses,
  get_address_count, host_size,
}

-- A resolver whose addresses were replaced by those given, and the status.
abbrev pub Replaced : NameResolver → List ResolvedAddress → NameResolver × Status → Type 0
Replaced r resolved (r', status) =
    (get_addresses r' ≡ resolved)
    × (get_address_count r' ≡ length resolved)
    × (((status ≡ success) × (resolved ≢ [])) ⊎ ((status ≡ failure) × (resolved ≡ [])))
    × (r' ≡ record r { addresses = get_addresses r'; address_count = get_address_count r' })

install-Replaced :
    (r : NameResolver) (resolved : List ResolvedAddress)
    → Replaced r resolved (install (record r { addresses = []; address_count = 0 }) resolved)
unfolding install get_addresses get_address_count
install-Replaced r [] = (refl, refl, inr (refl, refl), refl)
install-Replaced r (a ∷ rest) = (refl, refl, inl (refl, λ e. cc), refl)

-- A resolution succeeds exactly if it gives an address. It replaces the addresses that the
-- resolver had, and their number, also where it fails and leaves none; it changes nothing else.
pub resolve-Replaced :
    (lookup : AddrLookup) (alloc : Alloc) (k : ℕ) (r : NameResolver)
    → Replaced r (resolve_by lookup alloc k r) (resolve lookup alloc k r)
unfolding resolve
resolve-Replaced lookup alloc k r = install-Replaced r (resolve_by lookup alloc k r)

-- With memory granted, a static target of a host of less than 256 bytes without a colon, a colon
-- and a port below 2^31 in decimal gives that host and port as the one address.
pub resolve_static :
    (lookup : AddrLookup) (alloc : Alloc) (k : ℕ) (r : NameResolver) (host : List ℕ) (port : ℕ)
    → r.kind ≡ static
    → r.target ≡ host ++ colon ∷ decimal port
    → All (λ c. c ≢ colon) host
    → length host < host_size
    → port < 2 ^ 31
    → alloc k ≡ true
    → alloc (k + 1) ≡ true
    → resolve lookup alloc k r ≡ (
      record r { addresses = record { address = host; port = pos port } ∷ []; address_count = 1 },
      success,
    )
unfolding resolve static_resolve
resolve_static lookup alloc k r host port kind target plain short small node text =
    let found : split_colon r.target ≡ some (host, decimal port) =
      ap split_colon target ∙ split_colon-append host (decimal port) plain in
    ground (arith, kind, found, atoi-decimal port small, node, text)

-- The texts of the entries that are used, in order.
unfoldable pub usable_texts : List AddrInfo → List (List ℕ)
usable_texts [] = []
usable_texts (info ∷ rest) =
    let texts = usable_texts rest in elim (usable info) [ none ↦ texts | some text ↦ text ∷ texts ]

abbrev pub at_port : ℤ → List ℕ → ResolvedAddress
at_port port text = record { address = text; port = port }

collect-usable_texts :
    (alloc : Alloc) (k : ℕ) (port : ℤ) (infos : List AddrInfo)
    → ((j : ℕ) → alloc j ≡ true)
    → collect alloc k port infos ≡ map (at_port port) (usable_texts infos)
unfolding collect usable_texts address_create next_request
collect-usable_texts alloc k port [] all = refl
collect-usable_texts alloc k port (info ∷ rest) all = ground (
  arith,
  all k,
  all (k + 1),
  collect-usable_texts alloc k port rest,
  collect-usable_texts alloc (k + 2) port rest,
)

-- With all memory granted, a target of a host, a colon and a port below 2^31 in decimal that getaddrinfo
-- knows resolves to the entries of the two families that have a text, in their order and each with
-- the port.
pub resolve_dns :
    (lookup : AddrLookup) (alloc : Alloc) (k : ℕ) (r : NameResolver) (host : List ℕ) (port : ℕ)
    (infos : List AddrInfo)
    → r.kind ≡ dns
    → r.target ≡ host ++ colon ∷ decimal port
    → All (λ c. c ≢ colon) host
    → length host < host_size
    → port < 2 ^ 31
    → lookup host ≡ some infos
    → ((j : ℕ) → alloc j ≡ true)
    → get_addresses (resolve lookup alloc k r).0 ≡ map (at_port (pos port)) (usable_texts infos)
unfolding dns_resolve resolve_by
resolve_dns lookup alloc k r host port infos kind target plain short small known all =
    let found : split_colon r.target ≡ some (host, decimal port) =
      ap split_colon target ∙ split_colon-append host (decimal port) plain in
    let given : resolve_by lookup alloc k r ≡ collect alloc k (pos port) infos =
      ground (arith, kind, found, atoi-decimal port small, known) in
    (resolve-Replaced lookup alloc k r).0
    ∙ given
    ∙ collect-usable_texts alloc k (pos port) infos all
