-- ===== src/Cli/Open/Holds.antt =====
-- What an `open` holds when it returns, and when it does not return.
use mathlib.Core.Path.{subst}
use flash_qwen.Chatml
use flash_qwen.Cli.Open.Effects.{
  Holdings, without, apply, holds, idle, holds-append, holds-supervisor,
}
use flash_qwen.Cli.Open.{
  World, Session, Act, supervisor, dialed, closed, signalled, reaped, removed, after, dead_by,
  fail_with, stop_engine, Opened, session, failed, stop, startup_timeout, ready, await, connect,
  behind, launched, with_tokenizer, open_model,
}
use flash_qwen.Engine.Client.Ready.{HasEnd, wait_ready_total}
use flash_qwen.Engine.Client.{
  Failure, err_over_capacity, err_engine_internal, transport, err_prompt_too_long, timed_out,
  exited, Result, ok, err, wait_ready, error_text,
}
use flash_qwen.Engine.Generate.{new_generator}
use flash_qwen.Engine.{ModelInfo}
use flash_qwen.Prelude.{
  Bool, true, false, List, [], ◌∷◌, ◌++◌, append_assoc, Option, none, some, map, Bytes, ◌≡◌, ◌≢◌,
  refl, sym, ap, ◌∙◌, bytes_eq_iff, ◌⊎◌, inl, inr,
}
use flash_qwen.Supervisor.Start.Leaves
use flash_qwen.Supervisor.Start.Leaves.{Held, nothing, leaves, Passes, orphan, start-Leaves}
use flash_qwen.Supervisor.Start
use flash_qwen.Supervisor.Start.{
  Answer, given, Action, Engine, Host, Options, Started, engine, error, start,
}
use flash_qwen.Tokenizer.Load.Files.{Loaded, loaded, load_error}
use flash_qwen.Tokenizer.{Tokenizer}

module _ {Float : Type 0} (format_float : Float → Bytes) (o : Options Float) (w : World) where
  -- No process, no port and no connection; and no file, except when Start could not write it or make
  -- it executable.
  pub record IsReleased (x : Holdings) : Type 0 where
    pub process : x.held.process ≡ none
    pub port : x.held.port ≡ none
    pub connection : x.connection ≡ false
    pub file : (x.held.file ≡ none) ⊎ ((w.host.write_error ≢ none) ⊎ (w.host.chmod_error ≢ none))

  -- A session: its parts are those that were loaded and reported, one engine runs with the options
  -- that were asked for, and `stop`, once the process dies, lets everything go.
  pub record IsServed (s : Session) (acts : List Act) : Type 0 where
    pub tokenizer : w.tokenizer ≡ loaded s.gen.tok
    pub format : s.gen.cm ≡ Chatml.load w.eos s.gen.tok
    pub told : wait_ready startup_timeout w.polls ≡ some (ok s.info)
    pub window : s.gen.max_ctx ≡ s.info.max_ctx
    pub args : List Bytes
    pub passes : Passes format_float o s.engine.addr args
    pub held : holds idle acts ≡ record {
      held = record {
        file = some s.engine.path;
        port = none;
        process = some (s.engine.path, args);
      };
      connection = true;
    }
    pub stops :
        (later : List Act) × (stop true s ≡ some later) × (holds idle (acts ++ later) ≡ idle)

  abbrev pub Holds : Opened × List Act → Type 0
  Holds (failed e, acts) = IsReleased (holds idle acts)
  Holds (session s, acts) = IsServed s acts

  -- An `open` that has given up, after an error of `Dial` or of `WaitReady` that is not the report of
  -- an exit, and waits in `Stop` for a process that does not die.
  pub record Blocks : Type 0 where
    pub alive : w.dies ≡ false
    pub cause :
        (w.dial_error ≢ none)
        ⊎ ((f : Failure) × (wait_ready startup_timeout w.polls ≡ some (err f))
            × ((e : Bytes) → f ≢ exited e))

  abbrev pub Outcome : Option (Opened × List Act) → Type 0
  Outcome none = Blocks
  Outcome (some out) = Holds out

  -- The path behind a successful `Start`.
  module _ (tok : Tokenizer) (known : w.tokenizer ≡ loaded tok) (e : Engine) (actions : List Action)
      (started : Leaves.Leaves format_float o w.host (engine e) (leaves nothing actions)) where
    running : Holdings
    running = record {
      held = record { file = some e.path; port = none; process = some (e.path, started.0) };
      connection = false;
    }

    holds-running :
        (acts : List Act) → holds idle (map supervisor actions ++ acts) ≡ holds running acts
    unfolding running
    holds-running acts =
        holds-append idle (map supervisor actions) acts
        ∙ ap (λ h. holds h acts)
            (holds-supervisor idle actions ∙ ap (λ x. record idle { held = x }) started.1)

    abbrev stopping : List Act
    stopping = signalled ∷ reaped ∷ removed e.path ∷ []

    without_self : without (some e.path) e.path ≡ none
    unfolding without
    without_self = rw ((bytes_eq_iff e.path e.path).1 refl) refl

    released :
        (acts : List Act)
        → holds running acts ≡ running
        → IsReleased (holds idle (map supervisor actions ++ (acts ++ stopping)))
    unfolding holds apply running
    released acts h =
        subst IsReleased
          (sym (
            holds-running (acts ++ stopping)
            ∙ holds-append running acts stopping
            ∙ ap (λ x. holds x stopping) h))
          (record { process = refl; port = refl; connection = refl; file = inl without_self })

    given_up :
        (text : Bytes) (acts : List Act) (dies : Bool)
        → holds running acts ≡ running
        → (dies ≡ false → Blocks)
        → Outcome (behind actions (fail_with text (after acts (stop_engine dies e))))
    unfolding behind fail_with after stop_engine
    given_up text acts false h b = b refl
    given_up text acts true h b = released acts h

    given_up_now :
        (text : Bytes) (dies : Bool)
        → (dies ≡ false → Blocks)
        → Outcome (behind actions (fail_with text (stop_engine dies e)))
    unfolding behind fail_with stop_engine holds
    given_up_now text false b = b refl
    given_up_now text true b = released [] refl

    dial_failed : (f : Bytes) → w.dial_error ≡ some f → w.dial_error ≢ none
    dial_failed f d n = cc

    by_failure :
        (f : Failure)
        → wait_ready startup_timeout w.polls ≡ some (err f)
        → dead_by f w.dies ≡ false
        → Blocks
    unfolding dead_by
    by_failure (exited x) told d = cc
    by_failure (err_over_capacity x) told d = record { alive = d; cause = inr (_, told, λ y. cc) }
    by_failure (err_engine_internal x) told d = record { alive = d; cause = inr (_, told, λ y. cc) }
    by_failure (transport x) told d = record { alive = d; cause = inr (_, told, λ y. cc) }
    by_failure (err_prompt_too_long n m) told d = record {
      alive = d;
      cause = inr (_, told, λ y. cc);
    }
    by_failure (timed_out x) told d = record { alive = d; cause = inr (_, told, λ y. cc) }

    ready-Outcome :
        (r : Result ModelInfo)
        → wait_ready startup_timeout w.polls ≡ some r
        → Outcome (behind actions (ready w.dies (Chatml.load w.eos tok) tok e r))
    unfolding ready behind holds apply running new_generator stop after stop_engine
    ready-Outcome (err f) told =
        given_up (error_text f) (dialed ∷ closed ∷ []) (dead_by f w.dies) refl (by_failure f told)
    ready-Outcome (ok info) told = record {
      tokenizer = known;
      format = refl;
      told = told;
      window = refl;
      args = started.0;
      passes = started.3;
      held = holds-running (dialed ∷ []);
      stops = (
        closed ∷ stopping,
        refl,
        ap (holds idle) (append_assoc (map supervisor actions) (dialed ∷ []) (closed ∷ stopping))
            ∙ holds-running (dialed ∷ closed ∷ stopping)
            ∙ ap (λ x. record idle { held = record nothing { file = x } }) without_self,
      );
    }

    connect-Outcome :
        (dial : Option Bytes)
        → w.dial_error ≡ dial
        → HasEnd w.polls
        → Outcome (behind actions (connect w (Chatml.load w.eos tok) tok e dial))
    unfolding connect await
    connect-Outcome (some f) d h =
        given_up_now f w.dies (λ alive. record { alive = alive; cause = inl (dial_failed f d) })
    connect-Outcome none d h =
        let (r, told) = wait_ready_total startup_timeout w.polls h in rw told (ready-Outcome r told)

  orphan_lem :
      (temp : Answer) (write_error chmod_error : Option Bytes)
      → (orphan format_float temp write_error chmod_error ≡ none)
        ⊎ ((write_error ≢ none) ⊎ (chmod_error ≢ none))
  orphan_lem (given path) (some e) chmod_error = inr (inl cc)
  orphan_lem (given path) none (some e) = inr (inr cc)
  orphan_lem (given path) none none = inl refl
  orphan_lem (Start.failed e) write_error chmod_error = inl refl

  started-Outcome :
      (tok : Tokenizer) (st : Started) (actions : List Action)
      → w.tokenizer ≡ loaded tok
      → HasEnd w.polls
      → Leaves.Leaves format_float o w.host st (leaves nothing actions)
      → Outcome (launched w (Chatml.load w.eos tok) tok (st, actions))
  unfolding launched
  started-Outcome tok (engine e) actions known h lv =
      connect-Outcome tok known e actions lv w.dial_error refl h
  started-Outcome tok (error e) actions known h lv =
      subst IsReleased (sym (holds-supervisor idle actions ∙ ap (λ x. record idle { held = x }) lv))
        (record {
          process = refl;
          port = refl;
          connection = refl;
          file = orphan_lem w.host.temp w.host.write_error w.host.chmod_error;
        })

  tokenizer-Outcome :
      (t : Loaded Tokenizer)
      → w.tokenizer ≡ t
      → HasEnd w.polls
      → Outcome (with_tokenizer format_float o w t)
  unfolding with_tokenizer holds
  tokenizer-Outcome (load_error f) e h = record {
    process = refl;
    port = refl;
    connection = refl;
    file = inl refl;
  }
  tokenizer-Outcome (loaded tok) e h =
      started-Outcome tok (start format_float o w.host).0 (start format_float o w.host).1 e h
        (start-Leaves format_float o w.host)

  -- As soon as an answer of the engine, its death or the deadline falls into the rounds, `open`
  -- returns, or waits in `Stop` for an engine that does not die, after an error of `Dial` or of the
  -- wait that is not the report of an exit. If it returns with an error, from whatever step, no
  -- process, port or connection is left, and no file except one that Start could not write or make
  -- executable. If it returns a session, the generator has the tokenizer that was loaded, its ChatML
  -- constants and the engine's own context window; one engine runs, with each option as asked for; and
  -- the session's `stop`, if the engine dies, lets everything go.
  pub open_model-Outcome : HasEnd w.polls → Outcome (open_model format_float o w)
  unfolding open_model
  open_model-Outcome = tokenizer-Outcome w.tokenizer refl
