-- ===== src/Command.antt =====
-- The command line (cmd): lists of the environment (SplitAndTrimEmpty of utils.go), defaults and
-- flags (start.go, root.go), and the user of an account (CreateUser of utils.go). Texts are ASCII.
pub mod Splitting
pub mod PoolIds
pub mod Users
use osmosis_publisher.Prelude.{
  split, split_from, ℕ, zero, suc, ◌-◌, ◌*◌, ℤ, pos, negsuc, Text, codes, List, [], ◌∷◌, ◌++◌, map,
  Option, none, some, Bool, true, false, not, any, contains, nat_eq, text_eq, length, is_empty,
  has_prefix, Map, lookup, insert, option_or, parse_uint, parse_int, if◌then◌else◌,
}
use osmosis_publisher.Types.{Error, Duration, Result, ok, err, panic, nanos_per_second}

unfoldable pub trim_left : Text → Text → Text
trim_left cutset [] = []
trim_left cutset (c ∷ s) = if contains cutset c then trim_left cutset s else c ∷ s

unfoldable pub trim_right : Text → Text → Text
trim_right cutset [] = []
trim_right cutset (c ∷ s) =
    let rest = trim_right cutset s in
    if is_empty rest then (if contains cutset c then [] else c ∷ []) else c ∷ rest

-- strings.Trim
unfoldable pub trim : Text → Text → Text
unfolding trim_left trim_right
trim cutset s = trim_right cutset (trim_left cutset s)

-- The loop of SplitAndTrimEmpty.
unfoldable pub trimmed : Text → List Text → List Text
unfolding trim
trimmed cutset [] = []
trimmed cutset (s ∷ ss) =
    let element = trim cutset s in
    let rest = trimmed cutset ss in if is_empty element then rest else element ∷ rest

unfoldable pub split_and_trim_empty : Text → Text → Text → List Text
unfolding split trimmed
split_and_trim_empty s sep cutset = if is_empty s then [] else trimmed cutset (split s sep)

-- A variable of the environment that is not set reads as the empty text.
abbrev pub getenv : Map Text Text → Text → Text
getenv env field = option_or (lookup field env) []

unfoldable set_default : Text → Text → Map Text Text → Map Text Text
set_default field value env = if is_empty (getenv env field) then insert field value env else env

-- The default of the flag pool-ids: a bad number panics.
unfoldable pub parse_ids : List Text → Result (List ℤ)
parse_ids [] = ok []
parse_ids (p ∷ ps) =
    let rest = parse_ids ps in
    elim (parse_int p) [
      | none ↦ panic
      | some id ↦ elim rest [ ok ids ↦ ok (id ∷ ids) | err e ↦ err e | panic ↦ panic ]
    ]

unfoldable pub pool_ids_flag : Map Text Text → Result (List ℤ)
unfolding split_and_trim_empty parse_ids
pool_ids_flag env =
    parse_ids
      (split_and_trim_empty (getenv env (codes "POOL_IDS")) (codes ",") (32 ∷ 9 ∷ 13 ∷ 10 ∷ 8 ∷ []))

-- The ids that the publisher is started with: a negative one panics.
unfoldable pub pool_ids_of : List ℤ → Result (List ℕ)
pool_ids_of [] = ok []
pool_ids_of (negsuc n ∷ ids) = panic
pool_ids_of (pos n ∷ ids) =
    let rest = pool_ids_of ids in elim rest [ ok us ↦ ok (n ∷ us) | err e ↦ err e | panic ↦ panic ]

-- The defaults of the other flags of a number: a bad one has a default of its own.
unfoldable blocks_flag : Map Text Text → ℕ
blocks_flag env = option_or (parse_uint (getenv env (codes "BLOCKS_TO_INDEX"))) 17_000

unfoldable db_port_flag : Map Text Text → ℕ
db_port_flag env = option_or (parse_uint (getenv env (codes "DB_PORT"))) 5432

unfoldable log_level_flag : Map Text Text → ℤ
log_level_flag env = option_or (parse_int (getenv env (codes "LOG_LEVEL"))) (pos 0)

-- time.ParseDuration is an argument.
unfoldable telemetry_period_flag : (Text → Option Duration) → Map Text Text → Duration
telemetry_period_flag parse_duration env =
    let period = getenv env (codes "TELEMETRY_PERIOD") in
    let default_period : Duration = pos (3 * nanos_per_second) in
    if is_empty period then default_period else option_or (parse_duration period) default_period

-- The defaults that start.go and root.go set in the environment.
unfoldable start_defaults : Map Text Text → Map Text Text
unfolding set_default
start_defaults env =
    let env = set_default (codes "TENDERMINT_API") (codes "tcp://localhost:26657") env in
    let env = set_default (codes "APP_API") (codes "http://localhost:1317") env in
    let env = set_default (codes "GRPC_API") (codes "localhost:9090") env in
    let env = set_default (codes "PUBLISHER_NAME") (codes "osmosis") env in
    let env =
      set_default (codes "POOL_IDS")
        (codes "1,1077,1223,678,1251,1265,1133,1220,1247,1135,1221,1248") env in
    let env = set_default (codes "BLOCKS_TO_INDEX") (codes "20000") env in
    set_default (codes "PRICES_SUBJECT") (codes "syntropy_defi.price.single.OSMO") env

unfoldable root_defaults : Map Text Text → Map Text Text
unfolding set_default
root_defaults env =
    let env = set_default (codes "PREFIX") (codes "synternet") env in
    let env = set_default (codes "DB_HOST") (codes "postgres") env in
    let env = set_default (codes "DB_PORT") (codes "5432") env in
    let env = set_default (codes "DB_USER") (codes "osmopub_user") env in
    let env = set_default (codes "DB_NAME") (codes "osmopub") env in
    set_default (codes "LOG_LEVEL") (codes "0") env
