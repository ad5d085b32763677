-- ===== src/Tests/Conformance.antt =====
-- `checkConformance` on the module of the small ledger.
use compact.Base.{◌≡◌, ◌↔◌, refl}
use compact.Conformance.{conformant, check_conformance}
use compact.Conformance.Outcome.{ImplementsAll, check_conformance_iff}
use compact.Conformance.Own.{check_conformance-IsOwnInterface}
use compact.Conformance.Reflexive.{IsReadable}
use compact.Tests.Chain.{declaration, signatures}

check_conformance_iff_example :
    (check_conformance declaration signatures ≡ conformant) ↔ ImplementsAll declaration signatures
check_conformance_iff_example = check_conformance_iff declaration signatures

check_conformance-IsOwnInterface_example : check_conformance declaration signatures ≡ conformant
unfolding IsReadable
check_conformance-IsOwnInterface_example =
    check_conformance-IsOwnInterface declaration signatures (refl, tt, tt, tt)
