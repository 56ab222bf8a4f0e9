-- ===== src/Lib.antt =====
-- A roadside unit that controls a traffic signal for buses and emergency vehicles: the middleware
-- in src/, the TIB application's queues in application/TIB/, and the vehicle lists of the bus and
-- emergency vehicle applications in application/TSP/ and application/EVSP/.
--
-- The parts and their files:
--   Common        Shared names: tests, lists and C strings, the integers of C expressions.
--   Signal        The records that the parts share (include/typedefine.h, include/config.h): the
--                 plans and status of the signal, a command, an object of the buffer.
--   Serial        The link to the signal controller. Packet: a frame and its checks. Tx: the
--                 requests of src/traffic_signal_packet_tx.c; `Tx` holds the sequence number and
--                 the frames written. Rx: the receiving thread of src/traffic_signal_packet_rx.c;
--                 `Rx` holds its packet, the input left, the replies and the handler calls. Link,
--                 Requests and Answer: frames from one side to the other, and what the receiver
--                 answers.
--   CommandBuffer src/traffic_signal_command_buffer.c. State: its globals, with the part of
--                 src/traffic_compensation.c and of the signal status that it changes. Insert:
--                 command_buf_insert_effect_time, _insert_adjustment and _resume_control. Send:
--                 command_buf_send. Polling: command_buf_polling, for any compensation. Reach: any
--                 order of the operations. Served: those orders in which every status has a subphase
--                 up to 8, as many as the array has room for.
--   Status        src/traffic_signal_status_updating.c. Update: the handlers of the frames 5FCC,
--                 5FC8, 5FC5, 5FC4 and 5F0C; `Status` adds to the command buffer's state what they
--                 change. Clock: those of 5FC3, 5FC6, 0FC2 and 0F04, whose fields are in `Clock`,
--                 and the readers of the status.
--   Compensation  src/traffic_compensation.c. Share: how the seconds are shared out. Start: the
--                 total of get_alignment_compensation_time, the commands, and start_compensation.
--                 Compose: the poll with it.
--   ObuRecord     src/OBU_record_processing.c: the vehicles that send messages. Ring and Lists: the
--                 records of a vehicle, and the lists and the hash table of vehicles (`ObuLists`).
--                 Message: V2R_msgf2OBU_record, and OBU_packet_rx_event_handler of
--                 src/com_packet_processing.c as far as the lists. Granted: the status that the
--                 command buffer gives a vehicle.
--   Hosts         Tsp: application/TSP/src/TSP_OBU_list.c, with the cases 4 and 5 of the cloud
--                 packets of TSP.c. Evsp: application/EVSP/src/EVSP_OBU_list.c, with the handlers
--                 of EVSP_timer_event.c. ByName: the lists by name that both keep. Links: the
--                 functions of include/list.h that the cooling list uses.
--   Evsp          application/EVSP/src/EVSP_subphase_threshold.c: the thread that adjusts the signal
--                 for the emergency vehicles. Adjust: EVSP_optimization. Activate: the list of
--                 vehicles, `Active`, and its operations. Round: a round of the thread's timer.
--                 Receive: EVSP_on_OBU_packet_rx of application/EVSP/src/EVSP.c from the search
--                 for the vehicle's host on, in a `Service`, but for reports and message signs.
--   Registry      src/application_registration.c: the list of the applications and those of their
--                 callbacks (`Registry`), and app_register. Cloud: the packets of the cloud as far
--                 as the callbacks, of src/com_packet_processing.c.
--   ErrorStatus   src/error_status.c: the bits of the status, and any sequence of calls.
--   MsgBuf        Bytes: src/byte_processing.c. Report: report_plan of
--                 src/traffic_signal_status_updating.c.
--   BufferRing    src/buffer.c: the ring of received buffers, and a bounded queue.
--   TibQueue      application/TIB/src/TIB_queue.c: one queue, the six by name, and threads.
--
-- An application inserts commands into the buffer; once a second the poll sends the command of the
-- running subphase over the link; at a change of subphase the object of the last one is cleared and
-- a compensation may start, which inserts commands again. A vehicle's message becomes a record of
-- the vehicle; the cloud or the applications make it a host, whose arrival inserts a command, and
-- whose end takes its commands back. The hosts of emergency vehicles that touch often enough join a
-- list, for which a thread inserts commands again and again. The messages reach the applications
-- through the callbacks that they registered.
--
-- A function that changes globals takes a state and gives the next one. Numbers are natural; the
-- conversions to 8 and 16 bits are written out, signed values are integers, and the 32-bit `int`
-- computations in between stay far below 2 ^ 31, but for the loop of command_buf_send, which gives
-- `none` where its `time` would leave that range. A mutex makes an operation atomic, but for the
-- queues, where the parts of the operations interleave. A round of the thread of the emergency
-- vehicles, which gives its mutex back before its end, is taken as one step too. `none` stands for NULL, for a thread that
-- waits for input, or for a loop that is still running when the fuel is used up: the reading of a
-- frame has as much fuel as bytes, which is enough as each round takes one, and the loop of
-- command_buf_send has 256 rounds, which suffice for a planned green above 4 seconds, as the time
-- it starts with is above -256 and each round then adds at least 1.
--
-- Where C reads or writes outside an array, or divides by 0, the definitions still give a value: a
-- read gives zeros, a write is lost, and a remainder by 0 is that of the natural numbers. It means
-- nothing for the program. This is so for a subphase above 8 of a status, a frame whose length field
-- is below 10 or above 128, a cycle time or a number of subphases 0 in a compensation, a subphase 0
-- in EVSP_optimization. `Served`, `CanCompensate`, `CanOptimize` and the hypotheses of the theorems
-- leave it out.
--
-- Parameters: the decoder of the vehicles' messages (a message has the fields that are read), the
-- calendar of the C library, the value of a `char` in the hash, the arithmetic of `float`s in a
-- vehicle's record; the products of floats that are rounded to seconds (the percentage bounds in
-- `Config`, the shares of a compensation); the comparisons with a vehicle's time of arrival
-- (`Arrival`); in which area a vehicle is, as a field of its message (`VehiclePacket`); what an
-- application's on_registration inserts, and what the memory of a result that is not set holds.
--
-- Not modelled: printing and logging, timers, the waiting for an acknowledgement, the opening of
-- the port, the other handlers of received frames (only that they are called), the report of a
-- compensation to the cloud, the payloads of the applications' packets, the geometry of the
-- touching areas, the private space of the applications in a vehicle's object, and every part that
-- is not named above: they are input and output, or other applications that use these parts.
pub mod BufferRing
pub mod CommandBuffer
pub mod Common
pub mod Compensation
pub mod ErrorStatus
pub mod Evsp
pub mod Hosts
pub mod MsgBuf
pub mod ObuRecord
pub mod Registry
pub mod Serial
pub mod Signal
pub mod Status
pub mod TibQueue
