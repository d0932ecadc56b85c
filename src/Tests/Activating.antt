-- ===== src/Tests/Activating.antt =====
-- Examples for the activation of leaves and the worker states.
use skill_code_review.Base.{
  sorted, sort_insert, insert, sort, ℕ, zero, suc, ◌+◌, update, String, true, ◌&&◌, ◌||◌, none,
  some, List, [], ◌∷◌, ◌≡◌, refl, ◌↔◌, arith, pos, ◌==◌, leb, Dict, lookup, contains, InOrder,
  str_leb, length, min, All, if◌then◌else◌,
}
use skill_code_review.Value.{
  Value, str, int, array, object, get, ensure_list, ensure_dict, item, nil, strings, truthy,
  nonempty_str,
}
use skill_code_review.Result.{ok, Parsers, to_int, iterate}
use skill_code_review.Glob.{minimatch, strip}
use skill_code_review.Characters.{Characters}
use skill_code_review.Activation.{Node, nodes_of, activate_leaves, fired_signals}
use skill_code_review.Activation.Escalation.{Activates}
use skill_code_review.Activation.Listing.{ids_of, activate_leaves-Activates}
use skill_code_review.Runner.{Outcome, rate_limited, output}
use skill_code_review.Merger.{dicts}
use skill_code_review.Worker.{
  WorkerRun, Transient, replied, call_worker, run_worker, outputs, count_degraded,
}
use skill_code_review.Worker.Floor.{Floored, coverage_floor, project_languages, scores}
use skill_code_review.Worker.Picks.{IsPickOf, coverage_floor-picks}
use skill_code_review.Worker.Retries.{Outage, After, events, transient, call_worker-recovers}
use skill_code_review.Worker.Branch.{run_worker-Outage}

-- ASCII letters, digits and spaces only.
abbrev pub ascii : Characters
ascii = record {
  is_space = λ c. c == 32;
  is_alnum =
      λ c. (leb b'a' c && leb c b'z') || (leb b'A' c && leb c b'Z') || (leb b'0' c && leb c b'9');
  same_letter = λ k c. k == c;
  lower = λ s. s;
}

abbrev python_leaf : Dict Value
python_leaf =
    ("id", str "lang-python")
    ∷ ("path", str "lang/python.md")
    ∷ ("activation", object (("file_globs", array (str "*.py" ∷ [])) ∷ []))
    ∷ []

abbrev typing_leaf : Dict Value
typing_leaf =
    ("id", str "dim-typing")
    ∷ ("path", str "dim/typing.md")
    ∷ ("activation", object (("escalation_from", array (str "lang-python" ∷ [])) ∷ []))
    ∷ []

abbrev node : String → Dict Value → Dict Value → Node
node leaf_id leaf activation = record { leaf_id = leaf_id; leaf = leaf; activation = activation }

abbrev two_nodes : List Node
two_nodes =
    node "dim-typing" typing_leaf (("escalation_from", array (str "lang-python" ∷ [])) ∷ [])
    ∷ node "lang-python" python_leaf (("file_globs", array (str "*.py" ∷ [])) ∷ [])
    ∷ []

two_nodes-read : nodes_of (typing_leaf ∷ python_leaf ∷ []) ≡ ok two_nodes
unfolding nodes_of nonempty_str get lookup
two_nodes-read = refl

abbrev python_env : Dict Value
python_env = ("changed_paths", array (str "a.py" ∷ [])) ∷ []

-- The second pass activates the leaf that stands in front of the one it is escalated from.
activate_two :
    activate_leaves ascii (typing_leaf ∷ python_leaf ∷ []) "" python_env
    ≡ ok (
        (("id", str "dim-typing")
          ∷ ("path", str "dim/typing.md")
          ∷ ("activation_match", array (str "escalation_from" ∷ []))
          ∷ [])
        ∷ (("id", str "lang-python")
            ∷ ("path", str "lang/python.md")
            ∷ ("activation_match", array (str "file_globs" ∷ []))
            ∷ [])
        ∷ [])
unfolding activate_leaves nonempty_str get lookup sort strings ensure_list minimatch insert
    sort_insert sorted
activate_two = refl

activate_leaves-Activates_example :
    (out : List (Dict Value)) × (activate_leaves ascii
        (typing_leaf ∷ python_leaf ∷ [])
        ""
        python_env
      ≡ ok out)
    × InOrder str_leb (ids_of out)
    × ((k : String)
        → (contains k (ids_of out) ≡ true)
          ↔ Activates
              (fired_signals ascii
                (ensure_list (get python_env "changed_paths"))
                (ensure_dict (get python_env "project_profile"))
                "")
              two_nodes
              k)
activate_leaves-Activates_example =
    activate_leaves-Activates ascii (typing_leaf ∷ python_leaf ∷ []) "" python_env two_nodes-read

-- A hook that is rate-limited at its first call.
abbrev limited_once : ℕ → Outcome
limited_once n = if n == 0 then rate_limited else output (("tool_results", array []) ∷ [])

abbrev fresh : WorkerRun
fresh = record {
  rate_limit_events = 0;
  overflow_splits = 0;
  degraded_workers = 0;
  coverage_floor_used = 0;
  calls = 0;
  slept = [];
}

limited_once-Outage : Outage limited_once 0 1
limited_once-Outage zero h e = cc
limited_once-Outage (suc i) h e = absurd (omega arith)

call_worker-recovers_example :
    (s : WorkerRun) × (call_worker limited_once 2 0 fresh
      ≡ (replied (("tool_results", array []) ∷ []), s))
    × After fresh s 0 1
    × (events s ≡ events fresh + 1)
call_worker-recovers_example =
    call_worker-recovers limited_once 1 2 0 fresh (("tool_results", array []) ∷ []) (omega arith)
      limited_once-Outage refl

abbrev always_limited : ℕ → Outcome
always_limited n = rate_limited

always_limited-Outage : Outage always_limited 0 3
always_limited-Outage i h e = cc

abbrev pub numbers_only : Parsers
numbers_only = record { parse_int = λ s. none; parse_float = λ s. none }

abbrev pub show : Value → String
show (str s) = s
show v = ""

run_worker-Outage_example :
    (t : Transient) × (s : WorkerRun) × (transient (always_limited 2) ≡ some t)
    × After fresh s 0 2
    × (events s ≡ events fresh + 3)
    × (run_worker numbers_only show "tool_discovery" [] [] always_limited 2 fresh
        ≡ (outputs (("tool_results", array []) ∷ []), count_degraded s))
run_worker-Outage_example =
    run_worker-Outage numbers_only show "tool_discovery" [] [] always_limited 2 fresh
      always_limited-Outage

abbrev activated_env : Dict Value
activated_env =
    ("activated_leaves", array (object python_leaf ∷ object typing_leaf ∷ []))
    ∷ ("cap", int (pos 1))
    ∷ []

coverage_floor-picks_example :
    (f : Floored) × (picked : List Value) × (coverage_floor numbers_only show "llm_trim" [] []
        activated_env
      ≡ ok f)
    × (get f.outputs "picked_leaves" ≡ array picked)
    × (length picked ≡ min 1 (length (dicts (object python_leaf ∷ object typing_leaf ∷ []))))
    × All (IsPickOf numbers_only show (dicts (object python_leaf ∷ object typing_leaf ∷ []))) picked
unfolding get lookup dicts project_languages scores truthy to_int iterate update contains strip
coverage_floor-picks_example =
    coverage_floor-picks numbers_only show [] [] activated_env
      {vs = item (object python_leaf) (item (object typing_leaf) nil)} {c = 0} {langs = []}
      {scored = (python_leaf, 2) ∷ (typing_leaf, 0) ∷ []} refl refl (λ e. cc)
      ((refl, refl), ((refl, refl), tt)) refl refl refl
