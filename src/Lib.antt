-- ===== src/Lib.antt =====
-- Verification of the matrix server: applications draw frames for LED panels and send them to a
-- server, which shows those of the top application on its renderers.
--
-- The parts. An application (application/MatrixApplication.cpp) draws on screens
-- (common/Screen.cpp, common/Color.cpp, application/CubeApplication.cpp) and sends a frame once the
-- last one was acknowledged. Messages (common/protobuf/matrixserver.proto) travel in packets
-- stuffed by common/Cobs.cpp over common/SocketConnection.cpp. The server (server/Server.cpp,
-- server/App.cpp) keeps a stack of applications, pauses and resumes them, and forwards what the
-- browser sends (renderer/WebSocketSimulatorRenderer/WsSession.h): parameters
-- (application/AnimationParams.cpp), joystick data (common/Joystick.cpp), motion and sound.
--
-- The files.
--   Common       shared names, Boolean tests, lists and signed integers over the native numbers
--   Protocol     the messages as records; a float is its bit pattern, a string a list of bytes
--   Cobs         Defs: encode, decode and insertBytesAndReturnDecodedPackets with their indices and
--                buffer; Frame: the specification of a packet; Encode, Decode, Total, Wire, Stream
--   Connection   Socket and Session: the handlers of the two connections on their queues; Queue,
--                Drain, Receive, Sending: histories of posts and completions, their end, and what the
--                other side receives; Ipc: the exchange of names and the calls over
--                Boost's message queues, which are an interface; Handshake; StoredQueues: one of them
--   Server       Apps, Requests, Clients, Tick: the handlers on the server's state, which return the
--                messages they send in order; Stack, Discipline, Effects: who was last told to
--                pause; Runs, History, Histories: requests, ticks and any interleaving of them;
--                Drawing: what reaches a renderer; Lifecycle: registration, kill, dead connections
--   Params       TextMap: the sorted map; Store: every operation; Updates, Transfer
--   Graphics     Color, Screen: the operations; Pixels, Draws: what a draw changes
--   Cube         Points, Drawing: faces, edges, corners, pixels and lines in space; Surface, Lines;
--                Plane: lines, circles, rectangles and bitmaps on a face; Bresenham, LineRange,
--                PlaneLines: their loops end; Font, Text: application/Font6px.h and drawText; FontCells, TextPoints,
--                TextLayout: where the points of a text lie
--   Joystick     Simulator: presses and reads; Presses: when a press is reported
--   Application  Life, Handler, Frames: the application's life, handleRequest and internalLoop;
--                Answers: the state machine of its life; Defined: which messages are handled;
--                Connect: the address of the server
--   Setup        Defaults, Screens, Files: server/ServerSetup.cpp; Start: server/RendererFactory.cpp
--                and server/main.cpp up to its loop; Warnings, DefaultCube, Restart, Backends, Service
--   Renderer     WebSocket: the renderer for the browser and its sessions; Newest, Browsers: which of
--                them gets the frames; Rotation, Turned: where the renderers of devices show a colour;
--                Spi: the lines and transfers of a frame; SpiRows, SpiFrame: that they fit
--   Standalone   Setup, Threads: application/MatrixApplicationStandalone.cpp, its two threads as steps
--                on their shared data; Sync, MainSteps, RenderSteps, Frames: what is shown
-- Each component's Tests runs its theorems at concrete inputs.
--
-- Correspondence. A handler that runs under a mutex or on the io_context is one function of the
-- state; interleavings are sequences of such steps. What a handler asks of the outside is returned
-- as a list of effects or messages. An exception of `at`, an access out of bounds or a read of an
-- uninitialised field is `none` or `undefined`, never a value. An `int` is an integer of any size
-- where it counts pixels, screens or applications; the numbers of `drawLine2D` and the sizes of a
-- panel are tested for an overflow, which is `undefined` or `none`. Bytes wrap around where the code
-- stores them.
--
-- Fuel and bounds. `decode_loop` runs on the length of the packet, `line_2d_loop` on the two
-- distances of the line and one more, `circle_loop` on the radius and one more; it is proved that this
-- is enough, for lines whose ends are within 2 ^ 27 of the origin and for circles as far as no `int`
-- overflows. The loops over lists and counters are structural.
--
-- Outside code. Protobuf's serialising and parsing, Boost, the processes, the clock and the random
-- numbers, the files, the terminal and the command line are arguments, and Boost's message queues a
-- record of operations; a law of them that a theorem needs is a hypothesis of it. Products of a
-- float and a component are functions from components to integers.
--
-- Not modelled: the I/O of the devices, the sensors, floating-point drawing, and the main
-- menu.

pub mod Common
pub mod Protocol
pub mod Cobs
pub mod Connection
pub mod Server
pub mod Params
pub mod Graphics
pub mod Cube
pub mod Joystick
pub mod Application
pub mod Setup
pub mod Renderer
pub mod Standalone
