-- ===== src/Registry/Monitor/Watching.antt =====
-- The monitor of lab3_real_time_processes/monitor.c, against the places of the registry that it watches.
use mathlib.Core.Option
use ctu_real_time_systems_pr.Base.{
  List, [], ap, arith, false, get_elem?, get_elem?-of_lt, get_or, length, length-map, none, refl,
  some, suc, sym, zero, ℕ, ℤ, ◌++◌, ◌+◌, ◌∙◌, ◌∷◌, ◌≡◌, ◌≤◌,
}
use ctu_real_time_systems_pr.Registry.{Company, Companies, companies_size}
use ctu_real_time_systems_pr.Registry.Init.{sound, init_shm-watch}
use ctu_real_time_systems_pr.Registry.Shared.{
  enter, at_place, meant, one_more, join, soil, gone, AllMayHappen, Event, IsClean, Place,
  meant_all, place_of, places, registry_refines,
}
use ctu_real_time_systems_pr.Registry.Monitor.{
  before, monitor_loop, monitor_main, monitor_round, print_company, shown, with_registry,
}

-- The same on the places.
abbrev pub print_place : Place → List (List ℕ × ℤ)
print_place none = []
print_place (some p) = p ∷ []

abbrev pub watch : ℕ → ℕ → (ℕ → List Event) → List Place → List (List ℕ × ℤ)
watch i zero others ps = []
watch i (suc left) others ps =
    let qs = meant_all (others i) ps in
    print_place (get_or qs i none) ++ watch (i + 1) left others qs

abbrev pub watched : ℕ → ℕ → (ℕ → List Event) → List Place → List Place
watched i zero others ps = ps
watched i (suc left) others ps = watched (i + 1) left others (meant_all (others i) ps)

-- What others do may happen when they do it.
abbrev pub RoundMayHappen : ℕ → ℕ → (ℕ → List Event) → List Place → Type 0
RoundMayHappen i zero others ps = Unit {0}
RoundMayHappen i (suc left) others ps =
    AllMayHappen (others i) ps × RoundMayHappen (i + 1) left others (meant_all (others i) ps)

print_company-place_of : (c : Company) → print_company c ≡ print_place (place_of c)
unfolding print_company
print_company-place_of c = ground arith

get_or-places :
    (cs : Companies) (i : ℕ) (c : Company)
    → get_elem? cs i ≡ some c
    → get_or (places cs) i none ≡ place_of c
get_or-places [] i c e = cc
get_or-places (d ∷ cs) zero c e = ap (λ o. place_of (Option.get_or o d)) e
get_or-places (d ∷ cs) (suc i) c e = get_or-places cs i c e

enter-length : (c_name : List ℕ) (ps : List Place) → length (enter c_name ps) ≡ length ps
enter-length c_name [] = refl
enter-length c_name (none ∷ ps) = refl
enter-length c_name (some p ∷ ps) = ap suc (enter-length c_name ps)

at_place-length :
    (i : ℕ) (f : Place → Place) (ps : List Place) → length (at_place i f ps) ≡ length ps
at_place-length i f [] = refl
at_place-length zero f (p ∷ ps) = refl
at_place-length (suc i) f (p ∷ ps) = ap suc (at_place-length i f ps)

meant-length : (e : Event) (ps : List Place) → length (meant e ps) ≡ length ps
meant-length (join c_name) ps = enter-length c_name ps
meant-length (soil i) ps = at_place-length i one_more ps
meant-length (gone i) ps = at_place-length i (λ p. none) ps

meant_all-length : (es : List Event) (ps : List Place) → length (meant_all es ps) ≡ length ps
meant_all-length [] ps = refl
meant_all-length (e ∷ es) ps = meant_all-length es (meant e ps) ∙ meant-length e ps

same_length :
    (es : List Event) (cs ds : Companies)
    → places ds ≡ meant_all es (places cs)
    → length ds ≡ length cs
same_length es cs ds means =
    sym (length-map ds place_of)
    ∙ ap length means
    ∙ meant_all-length es (places cs)
    ∙ length-map cs place_of

watched-length :
    (i left : ℕ) (others : ℕ → List Event) (ps : List Place)
    → length (watched i left others ps) ≡ length ps
watched-length i zero others ps = refl
watched-length i (suc left) others ps =
    watched-length (i + 1) left others (meant_all (others i) ps) ∙ meant_all-length (others i) ps

-- A round of the monitor, from the entry `i` on.
round_refines :
    (i left : ℕ) (others : ℕ → List Event) (cs : Companies)
    → RoundMayHappen i left others (places cs)
    → IsClean cs
    → i + left ≤ length cs
    → (cs' : Companies) × (monitor_round i left others cs
        ≡ some (watch i left others (places cs), cs'))
      × (places cs' ≡ watched i left others (places cs))
      × IsClean cs'
unfolding monitor_round Option.bind
round_refines i zero others cs h clean fits = (cs, refl, refl, clean)
round_refines i (suc left) others cs (h, hs) clean fits =
    let (ds, done, means, still) = registry_refines (others i) cs h clean in
    let size : length ds ≡ length cs = same_length (others i) cs ds means in
    let (c, at) = get_elem?-of_lt ds i (omega (arith, size)) in
    let (cs', printed, after, end) =
      round_refines (i + 1) left others ds (rw means hs) still (omega (arith, size)) in
    let entry : print_company c ≡ print_place (get_or (places ds) i none) =
      print_company-place_of c ∙ ap print_place (sym (get_or-places ds i c at)) in
    (
      cs',
      ap
            (λ o. Option.bind o (λ ds.
              Option.bind (get_elem? ds i) (λ c. before c (monitor_round (i + 1) left others ds))))
            done
          ∙ ap (λ o. Option.bind o (λ c. before c (monitor_round (i + 1) left others ds))) at
          ∙ ap (before c) printed
          ∙ ap (λ l. some (l ++ watch (i + 1) left others (places ds), cs')) entry
          ∙ ap (λ qs. some (print_place (get_or qs i none) ++ watch (i + 1) left others qs, cs'))
              means,
      after ∙ ap (watched (i + 1) left others) means,
      end,
    )

-- The same for all rounds.
abbrev pub LoopMayHappen : List (ℕ → List Event) → List Place → Type 0
LoopMayHappen [] ps = Unit {0}
LoopMayHappen (others ∷ rounds) ps =
    RoundMayHappen 0 companies_size others ps
    × LoopMayHappen rounds (watched 0 companies_size others ps)

abbrev pub watch_all : List (ℕ → List Event) → List Place → List (List (List ℕ × ℤ))
watch_all [] ps = []
watch_all (others ∷ rounds) ps =
    watch 0 companies_size others ps ∷ watch_all rounds (watched 0 companies_size others ps)

loop_refines :
    (rounds : List (ℕ → List Event)) (cs : Companies)
    → LoopMayHappen rounds (places cs)
    → IsClean cs
    → length cs ≡ companies_size
    → monitor_loop rounds cs ≡ some (watch_all rounds (places cs))
unfolding monitor_loop Option.bind
loop_refines [] cs h clean size = refl
loop_refines (others ∷ rounds) cs (h, hs) clean size =
    let (ds, printed, after, still) =
      round_refines 0 companies_size others cs h clean (omega (arith, size)) in
    let kept : length ds ≡ companies_size =
      sym (length-map ds place_of)
      ∙ ap length after
      ∙ watched-length 0 companies_size others (places cs)
      ∙ length-map cs place_of
      ∙ size in
    ap (λ o. Option.bind o (λ r. Option.map (λ lines. r.0 ∷ lines) (monitor_loop rounds r.1)))
      printed
    ∙ ap (Option.map (λ lines. watch 0 companies_size others (places cs) ∷ lines))
        (loop_refines rounds ds (rw after hs) still kept)
    ∙ ap (λ qs. some (watch 0 companies_size others (places cs) ∷ watch_all rounds qs)) after

-- The monitor, where the kernel does what it is asked, the lock is free, and the registry is there with
-- its 50 places and no soil at an empty one: its test of the id never makes it exit. As long as companies,
-- between any two of its readings, count and leave only at places that are held then, and join with names
-- that fit, no access goes behind the array, and each of its rounds shows, place by place, the company
-- that is there at the moment of the reading, with its name and the soil that was counted there since it
-- came, and nothing where the place is empty.
pub monitor_refines :
    (rounds : List (ℕ → List Event)) (cs : Companies)
    → LoopMayHappen rounds (places cs)
    → IsClean cs
    → length cs ≡ companies_size
    → monitor_main sound (record { object = some cs; locked = false }) rounds
      ≡ shown (some (watch_all rounds (places cs)))
unfolding monitor_main with_registry Option.bind
monitor_refines rounds cs h clean size =
    ap (λ r. with_registry r.0 r.1.object rounds) (init_shm-watch cs)
    ∙ ap shown (loop_refines rounds cs h clean size)
