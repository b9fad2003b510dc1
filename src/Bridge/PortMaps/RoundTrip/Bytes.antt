-- ===== src/Bridge/PortMaps/RoundTrip/Bytes.antt =====
-- The bytes of the text of port maps.
use container_internals_simu.Prelude.{
  ℕ, ◌≤◌, true, false, List, [], ◌∷◌, ◌++◌, length, All, arith, All-append,
}
use container_internals_simu.Prelude.Text.{Text}
use container_internals_simu.Prelude.Decimal.{print_nat, IsDigit, print_nat-IsDigit}
use container_internals_simu.Bridge.{PortMapping}
use container_internals_simu.Bridge.PortMaps.{
  print_mapping, bridge_serialize_port_maps, IsProtoByte, IsMapping,
}
use container_internals_simu.Bridge.PortMaps.RoundTrip.{
  join, serialize_from-join, length-join_first,
}

-- A predicate of digits, of the bytes of protocols and of the three signs holds of the whole text.
module _ (P : ℕ → Type 0) (digit : (c : ℕ) → IsDigit c → P c)
    (proto : (c : ℕ) → IsProtoByte c → P c) (signs : P b':' × P b'/' × P b',') where
  digits-All : (s : Text) → All IsDigit s → All P s
  digits-All [] a = tt
  digits-All (c ∷ s) a = (digit c a.0, digits-All s a.1)

  proto-All : (s : Text) → All IsProtoByte s → All P s
  proto-All [] a = tt
  proto-All (c ∷ s) a = (proto c a.0, proto-All s a.1)

  mapping-All : (pm : PortMapping) → IsMapping pm → All P (print_mapping true pm)
  unfolding print_mapping
  mapping-All pm v =
      All-append P (print_nat pm.host_port)
        (b':' ∷ (print_nat pm.container_port ++ b'/' ∷ pm.proto))
        (digits-All (print_nat pm.host_port) (print_nat-IsDigit pm.host_port))
        (
          signs.0,
          All-append P (print_nat pm.container_port) (b'/' ∷ pm.proto)
              (digits-All (print_nat pm.container_port) (print_nat-IsDigit pm.container_port))
              (signs.1, proto-All pm.proto v.proto_bytes),
        )

  join-All : (maps : List PortMapping) → All IsMapping maps → All P (join false maps)
  unfolding join print_mapping
  join-All [] a = tt
  join-All (pm ∷ maps) a = (
    signs.2,
    All-append P (print_mapping true pm) (join false maps) (mapping-All pm a.0) (join-All maps a.1),
  )

  pub bridge_serialize_port_maps-All :
      (maps : List PortMapping)
      → All IsMapping maps
      → length maps ≤ 8
      → All P (bridge_serialize_port_maps maps 128)
  unfolding bridge_serialize_port_maps join print_mapping
  bridge_serialize_port_maps-All [] a h = tt
  bridge_serialize_port_maps-All (pm ∷ maps) a h =
      let short = length-join_first (pm ∷ maps) a h in
      rw (serialize_from-join 128 0 true (pm ∷ maps) (omega arith)) (
        All-append P (print_mapping true pm) (join false maps) (mapping-All pm a.0)
          (join-All maps a.1))
