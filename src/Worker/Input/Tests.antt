-- ===== src/Worker/Input/Tests.antt =====
-- Runs of worker/src/index.js, the checks on hosts, and the theorems at concrete inputs.
use swarmproof.Base.Dots.{is_digit, split_dots}
use swarmproof.Base.Decimal.{number_from}
use swarmproof.Base.{[], false, map, refl, true, ◌∷◌, ◌≡◌}
use swarmproof.Base.Text.{text}
use swarmproof.Worker.Input.{
  four_octets, is_octet_text, is_public_ipv4, is_valid_port, parse_octets, public_octets,
}
use swarmproof.Worker.Input.Dotted.{IsPublic, is_public_ipv4-IsPublic}

input_program : Unit {0}
unfolding is_public_ipv4 parse_octets four_octets is_octet_text public_octets split_dots is_digit
    is_valid_port number_from
input_program = tt

is_public_ipv4-IsPublic_example : IsPublic (text "093.184.216.34")
is_public_ipv4-IsPublic_example =
    is_public_ipv4-IsPublic (text "093.184.216.34") (unfold input_program in refl)

-- Private, link-local and malformed hosts are refused.
hosts_run :
    map is_public_ipv4
      (text "10.1.2.3" ∷ text "169.254.0.1" ∷ text "1.2.3" ∷ text "1.2.3.456" ∷ text "1.1.1.1" ∷ [])
    ≡ false ∷ false ∷ false ∷ false ∷ true ∷ []
unfolding input_program
hosts_run = refl
