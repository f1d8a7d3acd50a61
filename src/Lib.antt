-- ===== src/Lib.antt =====
-- The frontend of the Isolator-V sandbox: the state machines and the text processing of its React
-- components, in frontend/components/.
--
-- How the parts interact. ExecutionConsole keeps the session: it starts one, hands its id and its WASM
-- program to Terminal, which opens a WebSocket to the orchestrator, shows the output frame by frame,
-- and reports the end with the exit code and the files of the run. The console passes the files on to
-- VirtualFileTree, and the file that is selected there to ComponentRegistry, which chooses a viewer.
-- CodeEditor compiles a program and hands it to the console. TerminalErrorBoundary stands around the
-- terminal. AgentVitals and OrchestratorStatus poll the orchestrator on their own.
--
-- Common           helpers: Boolean tests, lists, text as UTF-16 code units, the capped doubling of delays
-- Vfs              file entries and snapshots
-- Console          frontend/components/ExecutionConsole.tsx: `Console` is its useState cells, a handler
--                  (handleRun, handleStop, ...) is the function of that name; Console.SessionId has the
--                  ids, Console.Keys the shortcuts, Console.Actions every event and sequences of them
-- Terminal         frontend/components/Terminal.tsx: `Terminal` is its refs; flushBuffer and enqueue;
--                  Terminal.Socket has the socket's handlers and the cleanup; Terminal.EndToEnd joins
--                  it with the console; Terminal.Xterm has the effects that make, recolour and dispose
--                  the xterm instance, with the theme toggle
-- FileTree         frontend/components/VirtualFileTree.tsx: buildTree; FileTree.Reducer the reducer;
--                  FileTree.Poll the fetch and the poll loop; FileTree.Pane what is shown;
--                  FileTree.Rows the rows of TreeNodes
-- Vitals           frontend/components/AgentVitals.tsx: the poll loop and the sample window;
--                  Vitals.Panels has FullPanel, CompactPill and the number formats, Vitals.Sparkline
--                  drawSparkline
-- Health           frontend/components/OrchestratorStatus.tsx: the probe and its countdown; Health.Tip
--                  the dot and its tooltip
-- Preview          frontend/components/ComponentRegistry.tsx: detectKind, the fetch and the choice of a
--                  viewer; Preview.Grid is DataGrid, Preview.Log LogViewer, Preview.Markdown
--                  MarkdownViewer, Preview.Spans its renderInline, Preview.Chart ChartView and
--                  Preview.Inspector WasmInspector, both on the values of Preview.Json; Preview.Fetched
--                  is about files that are fetched, Preview.Inline about those that the console's file
--                  selection has decoded, and Preview.Clicked about clicks on the file tree
-- Editor           frontend/components/CodeEditor.tsx; Editor.View is what it renders
-- Panic            frontend/components/TerminalErrorBoundary.tsx, with the console; Panic.View has the
--                  texts of its screen
-- Theme            frontend/components/ThemeToggle.tsx
-- Screen           frontend/components/ExecutionConsole.tsx: what the console renders, with its buttons;
--                  Screen.Laws is about any console, Screen.Reached about one that has been used, and
--                  Screen.Limits about the limits that the welcome pane names
-- Session          frontend/components/ExecutionConsole.tsx, Terminal.tsx and TerminalErrorBoundary.tsx as one
--                  system, with the effect that opens and closes the socket and the boundary that takes
--                  the terminal away and brings a new one; Session.Effect is about the effect
-- Hints            frontend/components/StatusBar.tsx and HelpOverlay.tsx: the shortcuts they name, against
--                  the console's keyboard handler; Hints.Guides has the guides of the help overlay,
--                  Hints.Guides.Previews the one to the file types, against ComponentRegistry.tsx
-- Tooltip          frontend/components/Tooltip.tsx: the timers of a tooltip, and its popup
-- Demos            frontend/components/ExecutionConsole.tsx: the embedded demo programs and their registry;
--                  Demos.Wasm is the format of base64 and of WebAssembly modules
--
-- A handler is a function from the state before to the state after; what the browser and the server do
-- (frames, replies, clicks, ticks) is a list of events in any order. Handlers that wait are cut at their
-- await. The setters that React batches are one record update.
--
-- Parameters. `encodeURIComponent`, the console's base64 decoder, `btoa`, the collation of
-- `localeCompare`, the parts of the comparison of grid cells (`Comparison`: `Number`,
-- `isFinite`, what the difference of two numbers is, `localeCompare`), JSON.parse (its result), JSON.stringify, the numbers
-- of the vitals (`JsNumber`) with their operators and methods (`Arithmetic`), the properties of the
-- computed style, the ISO text of a date and the Automerge document (`EntryDoc`, whose law says that an
-- assignment to the entries is what is read afterwards) are arguments of the definitions that use them.
--
-- Numbers. The chart and the inspector are modelled for whole numbers below 2 ^ 49, where the code's
-- arithmetic is exact but for the quotients, which the model keeps exact. An array that is too long to
-- be spread into arguments is left out. The displays of the vitals are modelled over any arithmetic;
-- Vitals.Formats has exact fractions as one, without the rounding of doubles. A sample of a sparkline is a
-- number of parts of 1, of any size, so that it may have decimals; its coordinates are exact fractions.
--
-- Fuel. The Markdown loop takes fuel, the number of lines, since each turn takes at least one line. The
-- rows of the file tree take the largest number of parts of a path, since a part is spent on each
-- directory on the way to a file. The digits of a number, a session id among them, take one more than
-- the number. The sections of a module, whose ids increase, take 13, the number of ids. All else is
-- structural recursion.
--
-- Not modelled: layout and styling, xterm and its resizing, console logs, the code within the embedded
-- demo programs; the page shell, which is static; and the Go orchestrator, the Rust worker manager and
-- the sources of the demo programs, which are other programs.
pub mod Common
pub mod Vfs
pub mod Console
pub mod Terminal
pub mod FileTree
pub mod Vitals
pub mod Health
pub mod Preview
pub mod Editor
pub mod Panic
pub mod Theme
pub mod Hints
pub mod Screen
pub mod Session
pub mod Tooltip
pub mod Demos
