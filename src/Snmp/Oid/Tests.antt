-- ===== src/Snmp/Oid/Tests.antt =====
-- SnmpOid.cpp on the identifiers of a MIB.
use simply_node_framework.Prelude.{[], arith, not, refl, some, true, ◌++◌, ◌↔◌, ◌∷◌, ◌≡◌, ◌&&◌}
use simply_node_framework.Prelude.Bytes.{codes}
use simply_node_framework.Prelude.Chars.{
  stoul, split_on, digits_value, digit_value, drop_while, is_space,
}
use simply_node_framework.Prelude.Decimal.{decimal, decimal_on}
use simply_node_framework.Snmp.Oid.{
  Oid, dotted_rest, equals, from_dotted, is_less, read_tokens, to_string, is_prefix_of,
}
use simply_node_framework.Snmp.Oid.Order.{subtree-interval, Precedes}
use simply_node_framework.Snmp.Oid.Printed.{from_dotted-to_string}

abbrev system : Oid
system = 1 ∷ 3 ∷ 6 ∷ 1 ∷ 2 ∷ 1 ∷ 1 ∷ []

printed : to_string (1 ∷ 3 ∷ 206 ∷ []) ≡ codes "1.3.206"
unfolding to_string dotted_rest decimal decimal_on
printed = refl

read_leading_dot : from_dotted (codes ".1.30..6") ≡ some (1 ∷ 30 ∷ 6 ∷ [])
unfolding from_dotted read_tokens stoul split_on digits_value digit_value drop_while is_space
read_leading_dot = refl

from_dotted-to_string_example : from_dotted (to_string (1 ∷ 3 ∷ [])) ≡ some (1 ∷ 3 ∷ [])
from_dotted-to_string_example = from_dotted-to_string (1 ∷ 3 ∷ []) (omega arith, (omega arith, tt))

-- 1.3.6.1.2.1.1.5 lies below 1.3.6.1.2.1.1, and before 1.3.6.1.2.1.2.
subtree-interval_example :
    ((is_less system (system ++ (5 ∷ [])) ≡ true) ↔ Precedes system (system ++ (5 ∷ [])))
    × ((equals system (system ++ (5 ∷ [])) ≡ true) ↔ (system ≡ system ++ (5 ∷ [])))
    × (is_prefix_of system (system ++ (5 ∷ [])) ≡ (
        not (is_less (system ++ (5 ∷ [])) system)
        && is_less (system ++ (5 ∷ [])) (1 ∷ 3 ∷ 6 ∷ 1 ∷ 2 ∷ 1 ∷ 2 ∷ [])))
subtree-interval_example =
    subtree-interval (1 ∷ 3 ∷ 6 ∷ 1 ∷ 2 ∷ 1 ∷ []) 1 system (system ++ (5 ∷ []))
