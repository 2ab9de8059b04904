-- ===== src/Resource/Query/Classes.antt =====
-- `family_eq` decides whether two sets hold ranges of the same class.
use rpki_net.Prelude.{◌≡◌, ◌≢◌, refl, true, false}
use rpki_net.Resource.Range.{Family, asn, ipv4, ipv6}
use rpki_net.Resource.Query.{family_eq}

pub family_eq_refl : (f : Family) → family_eq f f ≡ true
unfolding family_eq
family_eq_refl asn = refl
family_eq_refl ipv4 = refl
family_eq_refl ipv6 = refl

pub family_eq_differ : (f g : Family) → f ≢ g → family_eq f g ≡ false
unfolding family_eq
family_eq_differ asn asn d = absurd (d refl)
family_eq_differ asn ipv4 d = refl
family_eq_differ asn ipv6 d = refl
family_eq_differ ipv4 asn d = refl
family_eq_differ ipv4 ipv4 d = absurd (d refl)
family_eq_differ ipv4 ipv6 d = refl
family_eq_differ ipv6 asn d = refl
family_eq_differ ipv6 ipv4 d = refl
family_eq_differ ipv6 ipv6 d = absurd (d refl)
