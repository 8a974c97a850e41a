-- ===== src/Tests/Calls.antt =====
-- lib/callcenter/cluster.go, validator.go and backer.go at concrete inputs.
use mathlib.Core.List.{Perm, perm_append_comm}
use venn.Prelude.{ℕ, ◌≡◌, ◌≢◌, ◌↔◌, refl, Bool, false, none, some, List, [], ◌∷◌, arith, ◌≤◌}
use venn.Prelude.Int.{ℤ, pos}
use venn.Rpc.{Request, doc, malformed, plain, Value, quantity, Reply, fresh, intercept, Error}
use venn.Callcenter.Cluster.{Cluster, new_cluster, serve}
use venn.Callcenter.Cluster.Failover.{AllInhabited, attempts, walk, serve-walk, attempts-perm}
use venn.Callcenter.Cluster.Added.{IsAscending, add_all, group, given, add_all_lem}
use venn.Callcenter.Validator.{Validator, update_head}
use venn.Callcenter.Validator
use venn.Callcenter.Validator.Heads.{Sighting, see_all, see_all-perm}
use venn.Callcenter.Validator.Replies.{serve-block_number}
use venn.Callcenter.Backer.{Backer, new_backer}
use venn.Callcenter.Backer
use venn.Callcenter.Backer.Events.{WillRecover, replied, fired, run, reachable-WillRecover}
use venn.Callcenter.Backer.Serve.{IsHttp, serve-http_iff}
use venn.Util.Text.{
  contains_ignore_case, starts_with_ignore_case, matches_here, byte_length, to_upper,
}
use venn.Tests.Hex.{hexutil}
use venn.Tests.Data.{request, node, remote, bad_gateway}

-- Two remotes of priority 0, the first of them down, and one of priority 1.
abbrev two_groups : Cluster ℕ
two_groups = record {
  priorities =
      record { priority = pos 0; remotes = 1 ∷ 0 ∷ []; round = 0 }
      ∷ record { priority = pos 1; remotes = 2 ∷ []; round = 0 }
      ∷ [];
  remotes = 1 ∷ 0 ∷ 2 ∷ [];
  remote_priority = pos 0 ∷ pos 0 ∷ pos 1 ∷ [];
}

serve-walk_example :
    ((serve remote request (two_groups, 0)).0, (serve remote request (two_groups, 0)).1.1)
    ≡ walk remote request (attempts two_groups.priorities) fresh 0
serve-walk_example = serve-walk remote request two_groups 0 (omega arith, (omega arith, tt))

attempts-perm_run : Perm (attempts two_groups.priorities) (1 ∷ 0 ∷ 2 ∷ [])
attempts-perm_run = attempts-perm two_groups.priorities

abbrev added : List (ℤ × ℕ)
added = (pos 1, 7) ∷ (pos 0, 8) ∷ (pos 1, 9) ∷ []

add_all_run :
    IsAscending (add_all added new_cluster).priorities
    × AllInhabited (add_all added new_cluster).priorities
    × (group (pos 1) (add_all added new_cluster).priorities ≡ given (pos 1) added)
add_all_run = add_all_lem added (pos 1)

abbrev at_900 : Validator
at_900 = record { old = pos 60_000_000_000; head = 900; updated = pos 1_699_999_000_000_000_000 }

abbrev clock : ℕ → ℤ
clock s = pos 1_700_000_001_000_000_000

abbrev never : ℕ → Bool
never s = false

answered :
    (Validator.serve hexutil clock never node request (at_900, 0)).0
    ≡ record { result = quantity 1000; error = none } ∷ []
unfolding Validator.serve Validator.block_number venn.Rpc.do_raw intercept Validator.extract_block
    update_head
answered = refl

not_malformed : Request.params request ≢ malformed
not_malformed e = ground arith

serve-block_number_example :
    ((Validator.serve hexutil clock never node request (at_900, 0)).1.0.head ≡ 1000) × (900 ≤ 1000)
serve-block_number_example =
    serve-block_number hexutil clock never node request at_900 0 1000 refl not_malformed answered

abbrev sighting : ℕ → Sighting
sighting n = record { number = n; timestamp = pos n; now = pos 2000 }

see_all-perm_example :
    see_all (sighting 950 ∷ sighting 940 ∷ []) at_900
    ≡ see_all (sighting 940 ∷ sighting 950 ∷ []) at_900
see_all-perm_example =
    see_all-perm (sighting 950 ∷ sighting 940 ∷ []) (sighting 940 ∷ sighting 950 ∷ []) at_900
      (perm_append_comm (sighting 950 ∷ []) (sighting 940 ∷ []))

abbrev number : ℕ
number = 900

reachable-WillRecover_example : WillRecover (
    run
      (new_backer (pos 60) (pos 1) (pos 8))
      (replied (some bad_gateway) ∷ fired ∷ replied (some bad_gateway) ∷ []))
reachable-WillRecover_example =
    reachable-WillRecover (pos 60) (pos 1) (pos 8)
      (replied (some bad_gateway) ∷ fired ∷ replied (some bad_gateway) ∷ [])

abbrev broken : Request → ℕ → List Reply × ℕ
broken r s = (record { result = Value.nothing; error = some bad_gateway } ∷ [], s)

abbrev status : ℕ
status = 502

bad_gateway-IsHttp : IsHttp bad_gateway status
unfolding contains_ignore_case starts_with_ignore_case matches_here byte_length to_upper
bad_gateway-IsHttp = record {
  status_of = refl;
  no_codec = refl;
  no_user = refl;
  no_unsupported = refl;
  no_deadline = refl;
  no_cancel = refl;
  silent = refl;
}

serve-http_iff_example :
    ((Backer.serve broken request (new_backer (pos 60) (pos 1) (pos 8), 0)).1.0.happy ≡ false)
    ↔ ((status ≢ 400) × (status ≢ 413))
unfolding new_backer intercept
serve-http_iff_example =
    serve-http_iff broken request (new_backer (pos 60) (pos 1) (pos 8)) 0 bad_gateway status refl
      refl bad_gateway-IsHttp
