-- ===== src/Examples/Channels.antt =====
-- The theorems on channels, maps of objects and the discovery cache at concrete values.
use heterogeneous_network.Base.{arith, ltb, ◌-◌, Option, if◌then◌else◌}
use heterogeneous_network.Base.{
  ℕ, ◌≡◌, ◌↔◌, refl, true, List, [], ◌∷◌, ◌++◌, none, some, ok, throw, drop, get_elem?, length,
}
use heterogeneous_network.Base.Dict.{lookup, insert, delete}
use heterogeneous_network.Channel.{
  next, send, close, receiver, update_head, resolve, resolve_done, try_next_entry,
}
use heterogeneous_network.Channel.Session.{
  Receiver, Call, send_value, make_receiver, read, perform, perform_all,
}
use heterogeneous_network.Channel.Delivery.{session_of, channel-Follows, next-outcome, throws_iff}
use heterogeneous_network.Channel.Closing.{is_among, is_close, is_sender_close}
use heterogeneous_network.Channel.Outcome.{due}
use heterogeneous_network.Channel.Receivers.{receiver_of, filter_map_receiver, for_each}
use heterogeneous_network.Channel.Receivers.Drain.{kept, at_end, for_each-outcome}
use heterogeneous_network.Objects.{get, set, delete_key, size, keys}
use heterogeneous_network.Discovery.Cache.{
  Event, added, slept, add, expire, happen, happen_all, new_cache, get_entry,
}
use heterogeneous_network.Discovery.Cache.Bounds.{IsValid, cache-IsValid}
use heterogeneous_network.Discovery.Cache.Expiry.{cache_of, get_entry-added, get_entry-slept}

-- A receiver made after one value of three, which reads one of the two others.
abbrev talk : List (Call ℕ)
talk = send_value 10 ∷ make_receiver ∷ send_value 20 ∷ read 0 ∷ send_value 30 ∷ []

abbrev listener : Receiver ℕ
listener = record { head = 2; since = 1; got = 20 ∷ [] }

listener_there : get_elem? (session_of talk).receivers 0 ≡ some listener
unfolding perform perform_all send close receiver next update_head resolve resolve_done
    try_next_entry
listener_there = refl

channel-Follows_example : drop 1 (session_of talk).sent ≡ (20 ∷ []) ++ drop 2 (session_of talk).sent
channel-Follows_example = channel-Follows talk 0 listener listener_there

next-outcome_example :
    next (session_of talk).channel 2
    ≡ due (session_of talk).is_done 2 (drop 2 (session_of talk).sent)
next-outcome_example = next-outcome talk 0 listener listener_there

throws_iff_example :
    ((send 40 (session_of talk).channel (session_of talk).head ≡ throw)
      ↔ (is_among is_close talk ≡ true))
    × ((close (session_of talk).channel (session_of talk).head ≡ throw)
        ↔ (is_among is_sender_close talk ≡ true))
    × (receiver (session_of talk).channel (session_of talk).head
        ≡ ok (length (session_of talk).sent))
throws_iff_example = throws_iff talk 40

-- Objects that are their own keys.
abbrev own_key : ℕ → ℕ
own_key n = n

-- The fifth destination takes the place of the first, and the sleep of the second ends.
abbrev events : List (Event ℕ ℕ)
events = added 1 10 ∷ added 2 20 ∷ added 3 30 ∷ added 4 40 ∷ added 5 50 ∷ slept 1 ∷ added 3 35 ∷ []

cache-IsValid_example : IsValid own_key (happen_all own_key events (new_cache own_key))
cache-IsValid_example = cache-IsValid own_key events

get_entry-added_example :
    get_entry own_key 6 (happen own_key (added 6 60) (cache_of own_key events)) ≡ some 60
get_entry-added_example = get_entry-added own_key events 6 60

third_there : get own_key 3 (cache_of own_key events).entries ≡ some (record { entry = 35; id = 5 })
unfolding happen_all happen add expire get set delete_key insert delete lookup size keys
third_there = refl

get_entry-slept_example :
    (i : ℕ) × (get_entry own_key 3 (happen own_key (slept i) (cache_of own_key events)) ≡ none)
get_entry-slept_example =
    get_entry-slept own_key events 3 (record { entry = 35; id = 5 }) third_there

-- The listener keeps the numbers above 25, less 25.
abbrev above : ℕ → Option ℕ
above n = if ltb 25 n then some (n - 25) else none

for_each-outcome_example :
    for_each (filter_map_receiver (receiver_of (session_of talk).channel) above 4) 4 2
    ≡ some (
      kept above (drop 2 (session_of talk).sent),
      at_end (session_of talk).is_done,
      length (session_of talk).sent,
    )
unfolding perform perform_all send close receiver next update_head resolve resolve_done
    try_next_entry
for_each-outcome_example = for_each-outcome above talk 0 listener 4 listener_there (omega arith)
