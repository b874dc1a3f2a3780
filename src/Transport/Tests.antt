-- ===== src/Transport/Tests.antt =====
-- A frame of two datagrams, from the cut to the decoder.
use loom_host.Base.{
  ℕ, ◌≡◌, refl, inl, true, arith, some, List, [], ◌∷◌, replicate, length-replicate,
}
use loom_host.Base.Int.{pos, ◌<ℤ◌}
use loom_host.Base.BTreeMap.{get}
use loom_host.Datagram.{fragment, frag_count_of, div_ceil}
use loom_host.Reassembly.{Reassembler, new, run}
use loom_host.Reassembly.Invariant.{new-IsValid}
use loom_host.Reassembly.Collect.{IsDelivered, last_time}
use loom_host.Reassembly.Delivery.{HasRoom}
use loom_host.Transport.{receive, timed, indexed, frame, run-receive-fragment}

abbrev body : List ℕ
body = replicate 2000 7

two_datagrams : frag_count_of body ≡ 2
unfolding frag_count_of div_ceil
two_datagrams = ground (arith, length-replicate {A = ℕ} 2000 7)

new_room : HasRoom (frame 0 5 true (frag_count_of body)) new
unfolding new get
new_room = record { absent = refl; room = inl (omega arith) }

new_is_older : new.newest_complete <ℤ pos 5
unfolding new
new_is_older = omega arith

run-receive-fragment_example :
    (r' : Reassembler) × (run
        (receive [] (timed (pos 10 ∷ pos 12 ∷ []) (fragment 0 5 true body)))
        new
      ≡ some r')
    × IsDelivered
        (frame 0 5 true (frag_count_of body))
        (last_time (pos 10) (indexed 1 (pos 12 ∷ [])))
        new
        r'
run-receive-fragment_example =
    run-receive-fragment 0 5 true body [] (pos 10) (pos 12 ∷ []) (omega (arith, two_datagrams))
      (omega arith) (omega arith) (inl refl) (omega (arith, two_datagrams)) new-IsValid new_is_older
      new_room (inl refl)
