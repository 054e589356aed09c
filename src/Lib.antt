-- ===== src/Lib.antt =====
-- Verification of the firmware of a radio-over-IP gateway: a microcontroller that stands between a
-- TETRA terminal on a serial line and two servers on the network.
--
-- The program's parts, and the files that model them:
--   Adc (src/apps/adc.c, adc.h) samples the microphone by interrupts into two blocks that take turns.
--     `Adc.Adc` holds the two arrays, the two pointers, the count and the flag; `init`, `start`,
--     `stop`, `error` and `irq_handler` are the functions.
--   Serial (src/apps/serial.c) queues bytes to and from the terminal. `Serial.Port.Port` holds the two
--     ring buffers; the ring buffer itself is LPCOpen's, the parameter `Serial.Interface.RingBuffer`.
--   Parser (src/apps/parser.c, parser.h) talks to the terminal. `Parser.Value` is get_value,
--     `Parser.Radio` is radio_comm over the state `Radio`, `Parser.Modem` is radio_comm_init, with the commands that it
--     hands to the serial line in `Parser.Modem.Handshake` and the answers in `Parser.Modem.Oks`;
--     `Parser.Radio.Pieces` is about a line that comes in over several rounds.
--   Spudp (src/apps/speex_udp.c, speex_udp.h) keeps the connection with the servers: the state byte,
--     the timers and the control packets. `Spudp.Spec` is the abstract state machine that it refines.
--   Httpd (src/apps/httpd.c) is the web server by which the settings and the password are changed.
--     `Httpd.Http` is its state; `http_recv`, `http_accept` and `http_init` are the functions. A
--     request is classified (`classify`) and then served (`serve`). `Httpd.Scan` has the FIND macros
--     and strtoul, `Httpd.Pages` the texts of the pages and `Httpd.Replies` the pages.
--   Iap (src/apps/iap.c, iap.h) keeps the settings in flash memory. The chip's programming routines
--     are the parameter `Iap.Flash`; `Iap.Layout` is struct flash_data.
--   Voice (src/apps/speex_udp.c) encodes a block and sends it: `spudp_send` over the codec, the
--     parameter `Voice.Codec`. `Voice.Header` is about the header, `Voice.Encoding` about the frames,
--     `Voice.Packet` about the packet, `Voice.Fields` reads a packet back, and `Voice.Faults` has the
--     blocks that are too long.
--   Emac (src/lwip/src/arch/lpc17xx_40xx_emac.c, inc/lpc_17xx40xx_emac_config.h) is the Ethernet driver.
--     `Emac.Enet` holds the descriptor rings; `Emac.Rx` is the receive side, `Emac.Tx` the transmit
--     side and `Emac.Setup` the set-up. The predicates `Emac.Rx.Queue.Holds` and
--     `Emac.Tx.Pending.Pending` say what a ring holds from an index on, and `Emac.Rx.Accounts` who has
--     the buffers; `Emac.Rx.Run` and `Emac.Tx.Traffic` are about many calls. `Emac.Sides`, `Rx.Apart`
--     and `Tx.Apart` keep the two rings apart.
--   Systick (src/lwip/src/arch/lpc17xx_40xx_systick_arch.c) is the clock and the delay.
--   Roip (src/roip.c) is `main`: `choose` takes the addresses, `Roip.Boot` is the start-up,
--     `main_round` the body of the loop, `voice_step` its branch for a block and `reset_actions` the
--     one for the reset. `Roip.Callbacks` says what lwIP may do to the state, `Roip.Sound` and
--     `Roip.Rounds` have the invariant of the loop, `Roip.Buffers` follows the receive buffers, `Roip.Progress` is
--     about a round that does not fault, and
--     `Roip.Addressing` follows new settings from the web page to the next start.
--   IpAddr has what the address macros of lwIP that the firmware applies expand to.
--   Hardware and Net list the calls into the chip library and into lwIP's UDP. An operation returns
--     its calls in order; what lwIP answers is an argument.
--   Prelude has the shared helpers: tests, lists, machine words, arrays of C, results with faults, and
--     lists up to their order.
--   The modules called Small have the data on which the modules called Tests run the theorems.
--
-- How they interact: the main loop (Roip) polls Emac, which hands frames to lwIP and frees what was
-- sent; it polls Parser.Radio, which takes bytes from Serial, passes each line to the server
-- through Spudp, and starts and stops Adc; it polls Spudp; and it sends a block through Voice when
-- Adc's flag says that one is full, which is read through Adc's pointer while samples come in
-- (`Adc.Reading`). Httpd and the receivers of Spudp are called by lwIP; Httpd
-- reads the settings through Iap and asks for the reset after which the main loop takes them. Between
-- the rounds the controller writes the status of frames, and the sampler's interrupts come in.
--
-- Conventions. A word is a natural number with its wrap-around written out. A failed assert, an access
-- outside an array, a null pointer that is followed and an indeterminate value that is used are the
-- faults of `Result`. Loops over arrays recur on a number of rounds: `get_value` has one more than the
-- length it is given and `radio_comm` one more than the line's length, which are enough since the
-- position grows in each round; the rings of the driver get one round more than they have
-- descriptors, and the loop over the samples one more than there are samples; the wait for the flash
-- signature takes any number of rounds, and theorems say how many are enough.
--
-- Not modelled: lwIP itself, a copy of another project's library; the transmit buffer of the serial line,
-- whose 192 items are not what LPCOpen asks for, so that nothing is assumed of it; LPCOpen and the Speex codec, which
-- are not in the repository; the start-up code and the vector table; the parts of the driver that are
-- compiled for FreeRTOS only, and its bounce buffers, which
-- are switched off; src/lwip_tcpecho_sa.c, which is left out of the build.
pub mod Prelude
pub mod Hardware
pub mod Adc
pub mod IpAddr
pub mod Net
pub mod Spudp
pub mod Parser
pub mod Serial
pub mod Iap
pub mod Httpd
pub mod Emac
pub mod Voice
pub mod Systick
pub mod Roip
