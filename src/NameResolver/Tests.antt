-- ===== src/NameResolver/Tests.antt =====
-- Resolutions of small targets (src/name_resolver.c), and the theorems at concrete inputs.
use grpc_c.Common.{ℕ, ◌≡◌, refl, arith, true, none, some, List, [], ◌∷◌, ◌++◌}
use grpc_c.Common.Int.{pos}
use grpc_c.Common.Memory.{Alloc}
use grpc_c.Common.Fallible.{success}
use grpc_c.Targets.{colon}
use grpc_c.Targets.Decimal.{decimal}
use grpc_c.NameResolver.{
  ResolverType, static, NameResolver, AddrInfo, AddrLookup, inet, inet6, other, parse_target,
  resolve,
}
use grpc_c.NameResolver.Resolution.{resolve_static}

abbrev all_granted : Alloc
all_granted k = true

abbrev infos : List AddrInfo
infos =
    record { family = inet6; text = some (58 ∷ 58 ∷ 49 ∷ []) }
    ∷ record { family = other; text = some (120 ∷ []) }
    ∷ record { family = inet; text = some (49 ∷ []) }
    ∷ []

abbrev lookup : AddrLookup
lookup host = some infos

abbrev resolver : ResolverType → List ℕ → NameResolver
resolver kind target = record {
  kind = kind;
  target = target;
  addresses = record { address = 111 ∷ []; port = pos 1 } ∷ [];
  address_count = 1;
  custom_resolve = none;
  user_data = 0;
}

-- "a:443" and "a"; the first colon of "[::1]:443" is taken for the one before the port.
parse_port : parse_target (97 ∷ 58 ∷ 52 ∷ 52 ∷ 51 ∷ []) ≡ some (97 ∷ [], pos 443)
unfolding parse_target
parse_port = refl

parse_plain : parse_target (97 ∷ []) ≡ some (97 ∷ [], pos 50051)
unfolding parse_target
parse_plain = refl

parse_bracket :
    parse_target (91 ∷ 58 ∷ 58 ∷ 49 ∷ 93 ∷ 58 ∷ 52 ∷ 52 ∷ 51 ∷ []) ≡ some (91 ∷ [], pos 0)
unfolding parse_target
parse_bracket = refl

abbrev named : List ℕ
named = (97 ∷ []) ++ colon ∷ decimal 443

resolve_static_example : resolve lookup all_granted 0 (resolver static named) ≡ (
  record (resolver static named) {
    addresses = record { address = 97 ∷ []; port = pos 443 } ∷ [];
    address_count = 1;
  },
  success,
)
resolve_static_example =
    resolve_static lookup all_granted 0 (resolver static named) (97 ∷ []) 443 refl refl
      (λ e. omega (arith, e), tt) (omega arith) (omega arith) refl refl
