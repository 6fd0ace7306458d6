-- ===== src/Client/NameListing/Within.antt =====
-- Which stations `get_station_names` of src/solem_blip_ble/client_v2.py may name.
use solem_blip_ble.Common.{
  ℕ, ◌+◌, ◌≤◌, ◌≡◌, sym, ap, ◌∙◌, inl, inr, true, ◌&&◌, some, List, [], ◌∷◌, arith, Bytes, leb,
  ◌==◌, Bool-cases, Option-cases, is_some,
}
use mathlib.Core.Path.{subst}
use solem_blip_ble.Common.Text.{Str}
use solem_blip_ble.Common.Dict.{Dict, lookup, insert}
use solem_blip_ble.Protocol.Metadata.{StationNameFragment, parse_station_name_fragment}
use solem_blip_ble.Client.Polling.{returns, stops, goes_on, Turned-cases}
use solem_blip_ble.Client.ConfigReading.{Arrival, ConfigTurn, ConfigLimits, ConfigCall}
use package.solem_blip_ble.Client.NameListing.{
  NameListing, add_name, keep_fragment, handle_fragment, handle_fragments, has_names, listing_turn,
  listing_turns, no_names, get_station_names,
}

-- Every station of the names is one of the client's.
unfoldable pub AreWithin : ℕ → Dict Str → Type 0
AreWithin max_station_num [] = Unit {0}
AreWithin max_station_num ((station, name) ∷ rest) =
    (1 ≤ station) × (station ≤ max_station_num) × AreWithin max_station_num rest

insert-AreWithin :
    (max_station_num station : ℕ) (name : Str) (names : Dict Str)
    → 1 ≤ station
    → station ≤ max_station_num
    → AreWithin max_station_num names
    → AreWithin max_station_num (insert station name names)
unfolding AreWithin insert
insert-AreWithin m k name [] low high within = (low, high, tt)
insert-AreWithin m k name ((j, other) ∷ rest) low high (l, h, within) = elim (Bool-cases (j == k)) [
  | inl same ↦ rw same (low, high, within)
  | inr differs ↦ rw differs (l, h, insert-AreWithin m k name rest low high within)
]

add_name-AreWithin :
    (max_station_num station : ℕ) (group : Dict Bytes) (names : Dict Str)
    → 1 ≤ station
    → station ≤ max_station_num
    → AreWithin max_station_num names
    → AreWithin max_station_num (add_name station group names)
unfolding add_name
add_name-AreWithin m station group names low high within =
    elim (Bool-cases (is_some (lookup 0 group) && is_some (lookup 1 group))) [
      | inl both ↦ rw both (insert-AreWithin m station _ names low high within)
      | inr half ↦ rw half within
    ]

keep_fragment-AreWithin :
    (max_station_num : ℕ) (s : NameListing) (f : StationNameFragment)
    → AreWithin max_station_num s.station_names
    → AreWithin max_station_num (keep_fragment max_station_num s f).station_names
unfolding keep_fragment
keep_fragment-AreWithin m s f within = elim (Bool-cases (leb 1 f.station && leb f.station m)) [
  | inl inside ↦
      rw inside
        (add_name-AreWithin m f.station _ s.station_names (ground arith) (ground arith) within)
  | inr outside ↦ rw outside within
]

handle_fragment-AreWithin :
    (max_station_num : ℕ) (s : NameListing) (arrival : Arrival)
    → AreWithin max_station_num s.station_names
    → AreWithin max_station_num (handle_fragment max_station_num s arrival).station_names
unfolding handle_fragment
handle_fragment-AreWithin m s arrival within =
    elim (Option-cases (parse_station_name_fragment arrival.frame)) [
      | inl other ↦ rw (other, handle_fragment) within
      | inr (f, parsed) ↦
          rw (parsed, handle_fragment)
            (keep_fragment-AreWithin m (record s { last_fragment_at = some arrival.received }) f
              within)
    ]

handle_fragments-AreWithin :
    (max_station_num : ℕ) (s : NameListing) (arrivals : List Arrival)
    → AreWithin max_station_num s.station_names
    → AreWithin max_station_num (handle_fragments max_station_num s arrivals).station_names
unfolding handle_fragments
handle_fragments-AreWithin m s [] within = within
handle_fragments-AreWithin m s (arrival ∷ rest) within =
    handle_fragments-AreWithin m (handle_fragment m s arrival) rest
      (handle_fragment-AreWithin m s arrival within)

listing_turn-stops :
    (limits : ConfigLimits) (turn : ConfigTurn) (s : NameListing) (names : Dict Str)
    → listing_turn limits turn s ≡ stops (returns names)
    → (names ≡ s.station_names) × (has_names names ≡ true)
unfolding listing_turn
listing_turn-stops limits turn s names h = ground arith

listing_turn-goes_on :
    (limits : ConfigLimits) (turn : ConfigTurn) (s s' : NameListing)
    → listing_turn limits turn s ≡ goes_on s'
    → s' ≡ s
unfolding listing_turn
listing_turn-goes_on limits turn s s' h = ground arith

listing_turns-AreWithin :
    (max_station_num : ℕ) (limits : ConfigLimits) (turns : List ConfigTurn) (s : NameListing)
    (names : Dict Str)
    → AreWithin max_station_num s.station_names
    → listing_turns max_station_num limits turns s ≡ returns names
    → (has_names names ≡ true) × AreWithin max_station_num names
unfolding listing_turns
listing_turns-AreWithin m limits [] s names within h = absurd (ground arith)
listing_turns-AreWithin m limits (turn ∷ turns) s names within h =
    let t = handle_fragments m s turn.arrived in
    let kept = handle_fragments-AreWithin m s turn.arrived within in
    elim (Turned-cases (listing_turn limits turn t)) [
      | inl (outcome, eq) ↦
          let (same, some_name) =
            listing_turn-stops limits turn t names (eq ∙ ap stops (ground arith)) in
          (some_name, subst (AreWithin m) (sym same) kept)
      | inr (s', eq) ↦
          listing_turns-AreWithin m limits turns s' names
            (subst (λ (u : NameListing). AreWithin m u.station_names)
              (sym (listing_turn-goes_on limits turn t s' eq)) kept)
            (ground arith)
    ]

-- What `get_station_names` returns has a name for some station, and every station of it is between 1
-- and `max_station_num`.
pub get_station_names-AreWithin :
    (idle timeout max_station_num : ℕ) (call : ConfigCall) (names : Dict Str)
    → get_station_names idle timeout max_station_num call ≡ returns names
    → (has_names names ≡ true) × AreWithin max_station_num names
unfolding get_station_names AreWithin
get_station_names-AreWithin idle timeout m call names h = elim (Option-cases call.write_raises) [
  | inr (e, eq) ↦ absurd (ground arith)
  | inl eq ↦
      listing_turns-AreWithin m (record { idle = idle; deadline = call.started + timeout })
        call.turns (handle_fragments m no_names call.answered) names
        (handle_fragments-AreWithin m no_names call.answered tt) (ground arith)
]
