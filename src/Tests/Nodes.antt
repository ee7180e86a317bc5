-- ===== src/Tests/Nodes.antt =====
-- The theorems on nodes at a concrete one.
use atmega_a.Prelude.{ℕ, ◌≡◌, refl, arith, true, false, List, [], ◌∷◌, set}
use atmega_a.Packet.{get_packet_seq, set_packet_hop}
use atmega_a.Handled.{handling_request, update_handled_packet_cache, filter_packet}
use atmega_a.Handled.Once.{handled, handle_each, Spares, handled_once}
use atmega_a.Handled.Expire.{filter-update_handled_packet_cache, next_request_passes}
use atmega_a.Tests.{node, node-IsValid, name_packet}

-- Another request of the sender, with the sequence number 8.
abbrev later_request : List ℕ
later_request = set name_packet 1 0x80

later_spared : Spares name_packet later_request
unfolding get_packet_seq
later_spared a b y l h e = omega (arith, e)

handled_once_example :
    filter_packet
      (update_handled_packet_cache
        (record (handle_each (handled later_request ∷ []) (handling_request node)) {
          packet_cache = set_packet_hop node.packet_cache 3;
        }))
      9
      true
    ≡ false
handled_once_example =
    handled_once node (handled later_request ∷ []) 3 9 node-IsValid (omega arith) (later_spared, tt)
      (omega arith)

filter-update_handled_packet_cache_example :
    filter_packet (update_handled_packet_cache node) 9 true ≡ filter_packet node 9 true
filter-update_handled_packet_cache_example =
    filter-update_handled_packet_cache node 9 node-IsValid (λ e. omega arith)

-- The next request of the sender, with the sequence number 6.
abbrev next_packet : List ℕ
next_packet = set name_packet 1 0x60

next_request_passes_example :
    filter_packet (record (update_handled_packet_cache node) { packet_cache = next_packet }) 9 true
    ≡ true
unfolding get_packet_seq
next_request_passes_example =
    next_request_passes node next_packet 1 node-IsValid (λ e. omega arith) refl refl (omega arith)
      (omega arith) refl
