-- ===== src/CompanyMain/Lifetime.antt =====
-- The life of a company of lab3_real_time_processes/company.c: its crew is that of
-- lab2_mutex_semaphore/task2.c, and to the registry it is a company that comes and goes.
use mathlib.Core.Option
use mathlib.Core.List.{append_assoc}
use ctu_real_time_systems_pr.Base.{
  List, Option, Option-cases, [], ap, arith, false, inl, inr, none, refl, some, sym, ℕ, ◌++◌, ◌∙◌,
  ◌∷◌, ◌≡◌, ◌≢◌,
}
use ctu_real_time_systems_pr.Crew.{Crew, command, nobody, run, start_crew}
use ctu_real_time_systems_pr.Registry.{Companies, claim, leave}
use ctu_real_time_systems_pr.Registry.Init.{sound, init_shm-claim}
use ctu_real_time_systems_pr.Registry.Shared.{Event, apply, apply_all, gone, join}
use ctu_real_time_systems_pr.CompanyMain.{
  Ending, Round, company_command, company_loop, company_main, goes_on, returned, returns, proceed,
  with_place,
}

-- The characters with the ids, and what happens to the registry, of some rounds without an 'E'.
abbrev pub keys : List Round → List (ℕ × ℕ)
keys [] = []
keys (r ∷ rounds) = (r.a, r.id) ∷ keys rounds

abbrev pub events : List Round → List Event
events [] = []
events (r ∷ rounds) = r.others ++ events rounds

abbrev pub Stays : List Round → Type 0
Stays [] = Unit {0}
Stays (r ∷ rounds) = (r.a ≢ b'E') × Stays rounds

-- Any command but 'E' does what it does in task2.c.
command_same :
    (m_id a id : ℕ) (cs : Companies) (c : Crew)
    → a ≢ b'E'
    → company_command m_id a id cs c ≡ Option.map goes_on (command a id c)
unfolding company_command command
command_same m_id a id cs c h = ground arith

apply_all-append :
    (es fs : List Event) (cs : Companies)
    → apply_all (es ++ fs) cs ≡ Option.bind (apply_all es cs) (apply_all fs)
unfolding Option.bind
apply_all-append [] fs cs = refl
apply_all-append (e ∷ es) fs cs = elim (Option-cases (apply e cs)) [
  | inl stopped ↦ rw stopped refl
  | inr (ds, done) ↦ rw done (apply_all-append es fs ds)
]

nothing : {A B : Type 0} (o : Option A) → Option.bind {B = B} o (λ a. none) ≡ none
unfolding Option.bind
nothing none = refl
nothing (some a) = refl

events-then :
    (r : Round) (rounds : List Round) (es : List Event) (cs : Companies)
    → apply_all (events (r ∷ rounds) ++ es) cs
      ≡ Option.bind (apply_all r.others cs) (apply_all (events rounds ++ es))
events-then r rounds es cs =
    ap (λ l. apply_all l cs) (append_assoc r.others (events rounds) es)
    ∙ apply_all-append r.others (events rounds ++ es) cs

going_on :
    (o : Option Crew) (rest : Crew → Option Ending)
    → Option.bind (Option.map goes_on o) (proceed rest) ≡ Option.bind o rest
unfolding Option.bind proceed
going_on none rest = refl
going_on (some c) rest = refl

leaving :
    (c : Crew) (o : Option Companies) (rest : Crew → Option Ending)
    → Option.bind (Option.map (returns c) o) (proceed rest)
      ≡ Option.map (returned c) (Option.bind o some)
unfolding Option.bind proceed
leaving c none rest = refl
leaving c (some cs) rest = refl

last_command :
    (m_id a id : ℕ) (cs : Companies) (c : Crew)
    → a ≡ b'E'
    → company_command m_id a id cs c ≡ Option.map (returns c) (leave m_id cs)
unfolding company_command
last_command m_id a id cs c end = rw end refl

last_round :
    (m_id : ℕ) (last : Round) (later : List Round) (cs : Companies) (c : Crew)
    → last.a ≡ b'E'
    → company_loop m_id (last ∷ later) cs c
      ≡ Option.map (returned c) (apply_all (last.others ++ (gone m_id ∷ [])) cs)
unfolding company_loop apply Option.bind
last_round m_id last later cs c end = elim (Option-cases (apply_all last.others cs)) [
  | inl stopped ↦ rw (apply_all-append last.others (gone m_id ∷ []) cs, stopped) refl
  | inr (ds, done) ↦
      rw (apply_all-append last.others (gone m_id ∷ []) cs, done)
        (ap (λ o. Option.bind o (proceed (company_loop m_id later ds)))
            (last_command m_id last.a last.id ds c end)
          ∙ leaving c (leave m_id ds) (company_loop m_id later ds))
]

-- A round with another command.
one_round :
    (m_id : ℕ) (r : Round) (cs : Companies) (c : Crew) (rest : Crew → Option Ending)
    → r.a ≢ b'E'
    → Option.bind (company_command m_id r.a r.id cs c) (proceed rest)
      ≡ Option.bind (command r.a r.id c) rest
one_round m_id r cs c rest h =
    rw (command_same m_id r.a r.id cs c h) (going_on (command r.a r.id c) rest)

bind_same :
    (o : Option Crew) (f : Crew → Option Ending) (g : Crew → Option Crew) (h : Crew → Option Ending)
    → ((d : Crew) → f d ≡ Option.bind (g d) h)
    → Option.bind o f ≡ Option.bind (Option.bind o g) h
unfolding Option.bind
bind_same none f g h e = refl
bind_same (some d) f g h e = e d

-- The loop up to the first 'E'.
loop_same :
    (m_id : ℕ) (rounds : List Round) (last : Round) (later : List Round) (cs : Companies) (c : Crew)
    → Stays rounds
    → last.a ≡ b'E'
    → company_loop m_id (rounds ++ (last ∷ later)) cs c
      ≡ Option.bind (run (keys rounds) c) (λ d.
        Option.map (returned d) (apply_all (events rounds ++ (last.others ++ (gone m_id ∷ []))) cs))
unfolding company_loop Option.bind
loop_same m_id [] last later cs c stays end = last_round m_id last later cs c end
loop_same m_id (r ∷ rounds) last later cs c (h, stays) end =
    elim (Option-cases (apply_all r.others cs)) [
      | inl stopped ↦
          rw (events-then r rounds (last.others ++ (gone m_id ∷ [])) cs, stopped)
            (sym (nothing (run (keys (r ∷ rounds)) c)))
      | inr (ds, done) ↦
          rw (events-then r rounds (last.others ++ (gone m_id ∷ [])) cs, done)
            (one_round m_id r ds c (company_loop m_id (rounds ++ (last ∷ later)) ds) h
              ∙ bind_same (command r.a r.id c) (company_loop m_id (rounds ++ (last ∷ later)) ds)
                  (run (keys rounds)) _ (λ d. loop_same m_id rounds last later ds d stays end))
    ]

-- A company with two arguments that joins a registry which is there, where the kernel does what it is
-- asked: up to its first 'E' its crew is that of task2.c with the same keys, an access outside of its
-- arrays included. To the registry the whole program is a company that joins, what all workers and other
-- companies do meanwhile, and at the 'E' the leaving of the place that it got; then main returns, and
-- no key after it is read.
pub company_lifetime :
    (program c_name : List ℕ) (cs cs' : Companies) (i lower upper : ℕ) (rounds : List Round)
    (last : Round) (later : List Round)
    → claim c_name cs ≡ some (i, cs')
    → Stays rounds
    → last.a ≡ b'E'
    → company_main
        (program ∷ c_name ∷ [])
        sound
        (record { object = some cs; locked = false })
        lower
        upper
        (rounds ++ (last ∷ later))
      ≡ Option.bind (Option.bind (start_crew lower upper nobody) (run (keys rounds))) (λ d.
        Option.map
          (returned d)
          (apply_all (join c_name ∷ (events rounds ++ (last.others ++ (gone i ∷ [])))) cs))
unfolding company_main with_place apply Option.bind
company_lifetime program c_name cs cs' i lower upper rounds last later e stays end =
    rw (init_shm-claim c_name cs cs' i e, e)
      (bind_same (start_crew lower upper nobody) (company_loop i (rounds ++ (last ∷ later)) cs')
        (run (keys rounds)) _ (λ d. loop_same i rounds last later cs' d stays end))
