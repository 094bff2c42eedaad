-- ===== src/BindingTable/Tests.antt =====
-- The theorems on the binding table, at a table of three slots of which two hold bindings.
use arduino_nrf_zigbee.Prelude.{
  ◌≡◌, refl, ◌+◌, true, [], ◌∷◌, if◌then◌else◌, length, arith, Bool, not, ◌||◌, ◌&&◌, to_nat, ltb,
  ◌==◌,
}
use arduino_nrf_zigbee.BindingTable.{ZigbeeBinding, BindingTable, no_binding, matches, add}
use arduino_nrf_zigbee.Slots.{count}
use arduino_nrf_zigbee.BindingTable.Iterate.{visit, bound, visit_lem}
use arduino_nrf_zigbee.BindingTable.Bound.{binding_add_lem}

abbrev lamp : ZigbeeBinding
lamp = record {
  used = true;
  src_ieee = 1;
  src_endpoint = 1;
  cluster_id = 6;
  dst_addr_mode = 3;
  dst_group = 0;
  dst_ieee = 99;
  dst_endpoint = 2;
}

abbrev to_endpoint_3 : ZigbeeBinding → Bool
to_endpoint_3 e = e.dst_endpoint == 3

abbrev lights : ZigbeeBinding
lights = record lamp { dst_addr_mode = 1; dst_group = 0x4001 }

abbrev held : BindingTable
held = record { attached = true; entries = lamp ∷ lights ∷ no_binding ∷ [] }

visit_lem_example : visit 4 held 1 6 0 ≡ bound 1 6 held.entries
visit_lem_example = visit_lem held 1 6 4 refl (omega arith)

binding_add_lem_example :
    let (t', done) = add held (record lamp { dst_endpoint = 3 }) in
    let known = ltb 0 (count (matches (record lamp { dst_endpoint = 3 })) held.entries) in
    let room = ltb (count (λ e. e.used) held.entries) (length held.entries) in
    (done ≡ (known || room))
    × (count (λ e. e.used && to_endpoint_3 e) t'.entries
        ≡ count (λ e. e.used && to_endpoint_3 e) held.entries
          + (if not known && room
              then to_nat
                  (to_endpoint_3 (record (record lamp { dst_endpoint = 3 }) { used = true }))
              else 0))
binding_add_lem_example = binding_add_lem held (record lamp { dst_endpoint = 3 }) to_endpoint_3 refl
