-- ===== src/Lib.antt =====
-- A verification of the browser side of the router center: the VNC page (statics/include), with its
-- keys, its frames, its client and its display, and the telnet page (statics/telnet).
--
-- The parts and how they interact. The browser's key events pass through the stages of keyboard.js,
-- which input.js composes: the modifiers are synchronised, the event is decoded to a key symbol, it may
-- be delayed until it is known whether a keypress follows, the keys that are down are tracked, and
-- modifiers that only made a char are hidden from the server. websock.js frames bytes both ways over a
-- WebSocket, in base64 (base64.js) where the protocol is text. The telnet page reads that queue
-- (wstelnet.js), answers the options of the protocol and writes the text to a terminal (VT100.js).
--
-- rfb.js drives a VNC session on the queues of websock.js: each frame calls its handler of messages,
-- which goes through the handshake and then reads the server's messages; keys and the mouse are sent as
-- messages of the client, and timers call it back. What it asks of display.js is a list of calls; the
-- display draws them, tells what of the screen has to be asked for, and lets actions wait for images. The answers that the client gets from the display are parameters of the client's model.
--
-- Base64.antt            statics/include/base64.js: encode, decode, the decoder's loop.
-- Websock.antt           statics/include/websock.js: the record of the queues; the reads keep the names
--                        of the source in lower case (rQshift8 is rq_shift8); handle_message and
--                        recv_message are _recv_message, compact its last step. Below it: Queue, Reads,
--                        Receive, Refine (a plain queue) and Stream (one end to the other).
-- Keyboard/Keysym.antt   statics/include/keyboard.js: the tables of key codes.
-- Keyboard/Event.antt    the browser's event, getKey and getKeysym; the table of keysymdef.js is the
--                        parameter codepoints.
-- Keyboard/Modifiers.antt, Decoder.antt, Verify.antt, Track.antt, Escape.antt
--                        ModifierSync, KeyEventDecoder, VerifyCharModifier, TrackKeyState and
--                        EscapeModifiers; what a stage hands on is a list of events.
-- Keyboard/Pipeline.antt statics/include/input.js: the class Keyboard; Pipeline/Sent.antt is about what its
--                        handler at the end gets. Where that throws the model ends, with none.
-- Mouse.antt             statics/include/input.js: the class Mouse; Mouse/Buttons.antt and Mouse/Taps.antt
--                        are about what it reports.
-- Rfb.antt               statics/include/rfb.js: the record of the client, its calls of other parts, and
--                        the monad of its methods, which may throw. Below it: Messages (RFB.messages, with
--                        Server, which reads them, and RoundTrip), Queue (the reads), Life (the states and
--                        the socket's events), Words and Handshake (up to the result of the
--                        authentication), Updates (rectangles), Session (the server's messages, with
--                        Events, which drives the client), and Keeps, Diagram, Security, Deaf and Inputs
--                        for proofs. The methods keep their names in lower case, without the underscore.
--                        Rfb/Hextile.antt is HEXTILE; Calls below it says what a tile's bytes ask for; Tiling,
--                        Gives, Length, Painted and Consumed are for proofs.
-- Display.antt           statics/include/display.js: the viewport, its clean part and the sizes;
--                        Display/Style.antt: the style of the canvas and the copy kept of it;
--                        Display/Render.antt: drawing, tiles and the queue of rendering;
--                        Display/Cursor.antt: the file of a cursor. Cover, Fresh and Bounds are about
--                        the first, Render/Drawing, Order, Drained, Stale, Cells and Tiles about the second,
--                        Cursor/Size and Pixels about the last. renderQ_push is render_q_push, and so on.
-- Telnet.antt            statics/telnet/wstelnet.js: do_recv and do_send; Telnet/Keys.antt: key_down.
-- Telnet/Keysym.antt     statics/telnet/keysym.js: getKeysym.
-- Telnet/Items.antt      a telnet stream as the protocol describes it.
-- Vt100.antt             statics/telnet/VT100.js: the screen and its operations; Vt100/Write.antt: the
--                        interpreter of write. Below it: Grid, Bounds, Keeps and Screen (what holds of
--                        every screen), Sequences, Cursor, Colours and Text (from what is
--                        written to what shows).
-- Prelude.antt           lists, arrays and integers as JavaScript has them.
--
-- Numbers are natural, or integers with a sign where the source subtracts; 32-bit operations wrap as
-- the source's do. Numbers of a terminal's parameters are exact, where JavaScript rounds above 2^53. A
-- char is its code. An array slot that was never written is none. The loop of do_recv has as many
-- rounds of fuel as there are bytes, and each round takes at least one; the delay of VerifyCharModifier
-- is an event of its own, so every order of keys and timer is a list. may_scroll_ runs once for each
-- row that the cursor is too low, which the loop of the source counts down. The loop of an update has a
-- round for each byte of the queue and each rectangle, and one more; that these are enough is not proved,
-- and without it the model answers with an exception of its own, `stray`. RFB's `stray` also stands for
-- reads past the end of the queue whose outcome JavaScript leaves to what is not a number. HEXTILE's
-- loop has a round for each tile.
-- A timer is an event too, so every order of frames, timers, keys and calls is a list.
--
-- Not modelled: of rfb.js the encodings TIGHT, TIGHT_PNG, the cursor and the changes of size (what they
-- do is a parameter, an Effect), setDesktopSize, the statistics and the texts for the user; of display.js
-- the scale, the setters and the constructor; DES (the cipher is a parameter), what VT100 writes into the
-- page, the pages themselves, copies of other libraries (term.js, jsunzip.js, the Flash WebSocket), and
-- the server in Go. The browser's WebSocket is what `flush` hands frames to and what `recv_message` gets
-- them from; the client's handlers are parameters of `recv_message`.
pub mod Prelude
pub mod Base64
pub mod Websock
pub mod Keyboard
pub mod Mouse
pub mod Rfb
pub mod Display
pub mod Telnet
pub mod Vt100
