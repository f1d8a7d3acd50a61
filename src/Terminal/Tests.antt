-- ===== src/Terminal/Tests.antt =====
-- The theorems on frontend/components/Terminal.tsx at concrete sessions.
use Prim.{tt}
use isolator_v_wasm_sandbox.Common.{
  text_eq, codes, ◌≡◌, ◌↔◌, ◌⊎◌, ◌<◌, ◌≤◌, refl, true, false, none, some, List, [], ◌∷◌, ◌++◌, map,
  length, pos,
}
use isolator_v_wasm_sandbox.Common.Backoff.{iterate}
use isolator_v_wasm_sandbox.Vfs.{Snapshot}
use isolator_v_wasm_sandbox.Console.{Console, running, terminal, hello, demo}
use isolator_v_wasm_sandbox.Terminal.{
  Chunk, Report, Terminal, output, flush_buffer, max_bytes_per_frame,
}
use isolator_v_wasm_sandbox.Terminal.Socket.{
  Control, is_exit, Event, animation_frame, socket_opened, binary_frame, react_all,
}
use isolator_v_wasm_sandbox.Terminal.Flush.{
  total, total_before_last, flush_buffer_lem, flush_buffer_drains,
}
use isolator_v_wasm_sandbox.Terminal.Order.{stream, received_all, react_all-stream}
use isolator_v_wasm_sandbox.Terminal.Sessions.{session_of, session_steps, session-react_all}
use isolator_v_wasm_sandbox.Terminal.Reports.{whole_session}
use isolator_v_wasm_sandbox.Terminal.Pending.{IsScheduled, react_all-IsScheduled}
use isolator_v_wasm_sandbox.Terminal.EndToEnd.{deliver, state_of, files_after, whole_session_shown}

abbrev some_files : Snapshot
some_files = (codes "/workspace/a.txt", codes "aGk=") ∷ []

abbrev waiting : Terminal
waiting = record {
  ready = true;
  buffer = (104 ∷ 105 ∷ []) ∷ (33 ∷ []) ∷ [];
  raf = true;
  pending_bytes = 3;
  screen = [];
  sent = [];
  intentional_close = false;
  vfs_snapshot = none;
  exit_code = none;
  has_trap = false;
  reports = [];
}

abbrev clean_frame : Control
clean_frame = record {
  type = some (codes "exit");
  code = some (pos 0);
  vfs_snapshot = some some_files;
  trap = none;
}

abbrev trap_frame : Control
trap_frame = record clean_frame { trap = some (codes "unreachable") }

abbrev opening : List Event
opening =
    socket_opened false (codes "sess_1") (some (codes "AGFzbQ=="))
    ∷ binary_frame (111 ∷ 107 ∷ [])
    ∷ []

abbrev drawing : List Event
drawing = animation_frame ∷ []

abbrev console : Console
console = record {
  sandbox_state = running;
  session_id = some (codes "sess_1");
  active_tab = terminal;
  preview_file = none;
  help_open = false;
  show_vitals = true;
  selected_demo = hello;
  input_mode = demo;
  custom_wasm_b64 = none;
  inline_vfs_entries = [];
  inline_vfs_snapshot = [];
  inline_file_content = none;
  inline_file_b64 = none;
  last_exit_code = pos 0;
}

clean_frame-is_exit : is_exit clean_frame ≡ true
unfolding text_eq
clean_frame-is_exit = refl

trap_frame-is_exit : is_exit trap_frame ≡ true
unfolding text_eq
trap_frame-is_exit = refl

react_all-stream_example :
    stream (react_all opening waiting) ≡ stream waiting ++ received_all opening
react_all-stream_example = react_all-stream opening waiting refl

flush_buffer_example :
    (taken : List Chunk) × (waiting.buffer ≡ taken ++ (flush_buffer waiting).buffer)
    × ((flush_buffer waiting).screen ≡ waiting.screen ++ map output taken)
    × ((taken ≡ []) ⊎ (total_before_last taken < max_bytes_per_frame))
    × (((flush_buffer waiting).buffer ≡ []) ⊎ (max_bytes_per_frame ≤ total taken))
    × (((flush_buffer waiting).raf ≡ false) ↔ ((flush_buffer waiting).buffer ≡ []))
flush_buffer_example = flush_buffer_lem waiting refl

flush_buffer_drains_example : (iterate (length waiting.buffer) flush_buffer waiting).buffer ≡ []
flush_buffer_drains_example = flush_buffer_drains waiting refl

session-react_all_example :
    session_of (react_all opening waiting) ≡ session_steps opening (session_of waiting)
session-react_all_example = session-react_all opening waiting

whole_session_shown_example :
    (r : Report) × ((react_all
        (whole_session opening clean_frame [] drawing 1000 [])
        waiting).reports
      ≡ waiting.reports ++ r ∷ [])
    × ((deliver r console).sandbox_state ≡ state_of clean_frame)
    × ((deliver r console).inline_vfs_snapshot
        ≡ files_after clean_frame console.inline_vfs_snapshot)
whole_session_shown_example =
    whole_session_shown opening drawing clean_frame [] [] waiting console clean_frame-is_exit
      (tt, (tt, tt)) (tt, tt) refl refl

waiting-IsScheduled : IsScheduled waiting
waiting-IsScheduled = record { still_ready = refl; counted = refl; scheduled = refl }

react_all-IsScheduled_example : IsScheduled (react_all opening waiting)
react_all-IsScheduled_example = react_all-IsScheduled opening waiting waiting-IsScheduled
