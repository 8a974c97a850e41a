-- ===== src/Tests/Pages.antt =====
-- The dashboard over two remotes with their doctors, whose health is known.
use venn.Prelude.{
  ℕ, ◌≡◌, refl, String, Bool, true, false, List, [], ◌∷◌, ltb, leb, ◌≢◌, sym, ap, ◌∙◌, Option, none,
  some, if◌then◌else◌, arith,
}
use venn.Prelude.Order.{Ordered, leb-total, leb_trans, IsSorted}
use venn.Rpc.{ok}
use venn.Util.Text.{byte_length, codes}
use venn.Prelude.Int.{pos}
use venn.Callcenter.Doctor.{Doctor, new_doctor, can_use_now, healthy, unhealthy, unknown}
use venn.Config.{Chain}
use venn.Dashboard.{find_remote, remote_ordered, chain_info}
use venn.Dashboard.Agrees.{Configured, usables, Settles, Same, chain_info-agrees}
use venn.Tests.Configs.{remote, eth}

-- Names in order of their lengths
abbrev size : String → ℕ
size n = byte_length (codes n)

instance abbrev by_size : Ordered String
by_size = record {
  le = λ a b. leb (size a) (size b);
  total = λ a b. leb-total (size a) (size b);
  trans = λ a b c. leb_trans (size a) (size b) (size c);
}

abbrev Doctors : Type 0
Doctors = Doctor × Doctor

abbrev said_usable : Option Bool → Bool
said_usable none = false
said_usable (some b) = b

-- `CanUse` of the first doctor or the second
abbrev can_use : Bool → Doctors → Bool × Doctors
can_use true (d, e) = (said_usable (can_use_now d).0, ((can_use_now d).1, e))
can_use false (d, e) = (said_usable (can_use_now e).0, (d, (can_use_now e).1))

abbrev get_head : Bool → Doctors → ℕ
get_head t s = 7

abbrev no_error : Bool → Doctors → String
no_error t s = ""

abbrev Known : Doctors → Type 0
Known (d, e) = (d.health ≢ unknown) × (e.health ≢ unknown)

can_use_now-keeps : (d : Doctor) → (can_use_now d).1.health ≡ d.health
unfolding can_use_now
can_use_now-keeps d = ground arith

can_use_now-again : (d : Doctor) → (can_use_now (can_use_now d).1).0 ≡ (can_use_now d).0
unfolding can_use_now
can_use_now-again d = ground arith

settles : Settles can_use Known
settles true true (d, e) (k, l) =
    ((λ h. k (sym (can_use_now-keeps d) ∙ h), l), ap said_usable (can_use_now-again d))
settles true false (d, e) (k, l) = ((λ h. k (sym (can_use_now-keeps d) ∙ h), l), refl)
settles false true (d, e) (k, l) = ((k, λ h. l (sym (can_use_now-keeps e) ∙ h)), refl)
settles false false (d, e) (k, l) =
    ((k, λ h. l (sym (can_use_now-keeps e) ∙ h)), ap said_usable (can_use_now-again e))

abbrev new : Doctor
new = new_doctor (pos 1) "eth" "local" (pos 1_000_000_000) (pos 60_000_000_000)

abbrev doctors : Doctors
doctors = (record new { health = healthy }, record new { health = unhealthy })

known : Known doctors
known = (λ h. ground arith, λ h. ground arith)

abbrev chain : Chain
chain = record eth { remotes = record remote { name = "far" } ∷ (remote ∷ []) }

abbrev targets : List (String × Bool)
targets = ("local", true) ∷ (("far", false) ∷ [])

configured : Configured chain.remotes targets
unfolding find_remote
configured = ((_, refl), ((_, refl), tt))

chain_info-agrees_example :
    let ((info, remotes), s') =
      chain_info get_head can_use no_error (λ t. false) chain (ok 9) true targets doctors in
    (info.remote_count ≡ 2)
    × ((info.healthy_count ≡ usables (λ t. (can_use t doctors).0) targets)
        × ((info.status ≡ (if ltb 0 info.healthy_count then healthy else unhealthy))
            × (IsSorted remotes
                × Same get_head can_use no_error (λ t. false) Known settles doctors s')))
chain_info-agrees_example =
    chain_info-agrees get_head can_use no_error (λ t. false) Known settles chain (ok 9) targets
      doctors known configured
