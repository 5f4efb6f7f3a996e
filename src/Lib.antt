-- ===== src/Lib.antt =====
-- NekoChat: a chat, voice and screen-sharing program between peers. This library models the parts of
-- it whose logic is its own and proves what makes them right.
--
-- Wire is the byte level that all packets share. Wire/Words has words in memory and network byte
-- order (HostToNetwork64 and NetworkToHost64 of P2PChat.cpp, and htons, htonl on the little-endian
-- hosts the program is built for), Wire/Xor the obfuscation of text (ApplyXor55, in its SSE2 form:
-- the block loop has the number of bytes as its fuel, which is more than the number of blocks).
--
-- Files is the file transfer of P2PChat.cpp. Files/Names has SanitizeFileName and the keys of the
-- tables, Files/Packets the packed headers with their builders and readers, Files/State the members
-- of P2PClient that the transfer uses, Files/Begin has MakeUniquePath (its 9999 numbered candidates
-- as structural recursion) and BeginIncomingFileTransferLocked, Files/Cleanup has
-- CleanupFileTransfersLocked, and Files/Answers, Files/Meta, Files/Data and Files/Receiver are the
-- branches of HandleIncomingFilePacket and the handler. Files/Chunks is how SendFileWorker cuts a
-- file. A handler takes the state and gives the state: SendBufferToPeer adds to the list `sent`,
-- time is an argument in milliseconds, and a read past the end of a packet is none.
--
-- Files/Prompts is the user's answers to requests (PopPendingFilePrompt, AcceptPendingFilePrompt,
-- DeclinePendingFilePrompt) and the cleanup on stop, Files/Send the sender: WaitForFileAck from the
-- moment its wait returns, SendPacketWithAck with its retries as structural recursion, and
-- SendFileWorker. What lies outside of the sender has a state of any type, and what it does while the
-- sender waits is a parameter. Files/Link puts two of these programs together: the sender's
-- parameter is there a receiver and a network, which at each wait delivers any list of packets that
-- were ever sent, any number of times and in any order, beside answers of the receiving user.
--
-- Files/Disk is what the receiver uses of the file system: files by path, and for each operation in
-- turn the word of an oracle on whether it fails. A failed write leaves the file as it was. A file that
-- is open has what was written to its stream; what its close does not get to the disk, by another
-- word of the oracle, is lost then, which the program does not look at. Files/Prefix has the receiver's promise as an invariant of the state.
--
-- Signal is the signalling. Signal/Lines is the split into lines at both ends (its fuel is the
-- length of the buffer, which is more than its lines), Signal/Server the server of
-- SignallingServer.hpp: a step is one received piece of a client's bytes (client_receive, ClientLoop),
-- one connection (accept_client, Run), one removal or the stop. A client is a number, what its
-- socket has taken is the field `received`, and an oracle says how many bytes each call of send
-- takes; the loop of sendLine has the length of the line as its fuel. Signal/Client is
-- SignallingClient.hpp: the commands, ProcessLine, which gives the calls of the callback, and a
-- round of ReceiveLoop. Signal/Relay is the way of a command from one client to another.
--
-- Screen is SendScreenFrame and HandleIncomingScreenChunk of P2PChat.cpp, between the JPEG coder and
-- decoder: Screen/Cutting, Screen/Packets and Screen/Assembling are the frame cut up, sent and put
-- together. An access to a table out of range is none.
--
-- Ice is IceAgent.cpp. Ice.antt has the members of IceAgent, SendBindingRequest with the table of
-- pending requests, StartNextBatch and CheckPairTimeouts; Ice/Pairs the priorities of candidate pairs
-- and FormPairsInternal (pairs of equal priority stay in their order); Ice/Growing has
-- AddLocalCandidate, AddRemoteCandidate, AddNewPairsIncrementalInternal, StartReceiving and
-- StartConnectivityChecks; Ice/Incoming has OnUdpPacket, HandleStunResponseInternal,
-- SetPairSucceeded, UpdateActivity, CheckActivityTimeout, SendPing, Process and Cancel. A shared
-- pointer to a pair is the pair's number, its field `id`: the table of requests has it, and m_pairs
-- has the pairs. The callbacks are the list `reports`. A read behind what was received and an access
-- through a null pointer are none. The loop over a response's attributes has the end of the message
-- as its fuel, which is more than their number. Ice/Trying, Ice/Frames, Ice/Turns and Ice/Retries are
-- about pairs without an answer, Ice/Running about the sequences of an agent's calls. The parsing and printing of addresses, the
-- sends, the registration of sockets and the transaction ids are a parameter.
--
-- Stun is StunClient of STUN.hpp and SendStunResponse of IceAgent.cpp. A read behind what was
-- received is none; the loop over the attributes has the end of the message as its fuel, which is
-- more than the number of attributes.
--
-- Peers is what P2PClient of P2PChat.cpp does with its peers. Peers/State has the members, with the
-- agents as a store by number: a shared pointer to an agent is its number, and the reports that a
-- call of an agent adds are heard at once, as its callback is called (GetOrCreateAgent, the callback of
-- TryStartICE). Peers/Tasks has the scheduled tasks, whose threads end at a step of their own,
-- TryStartICE and ScheduleReconnect; Peers/Offers the offers and their prompts, where a StartGathering
-- that is under way is an entry of a list and its callback a step; Peers/Notices the callback that Start
-- gives to the signalling client, and the command offer; Peers/Rounds has ProcessAgents, PingLoop,
-- BroadcastMessage, the lists of peers and the worker's choice of an agent for a packet.
-- Peers/Starting is the way from an answer to the start of the checks.
-- Peers/Candidates is candidates as text (TryParseCandidateMessage with its sscanf_s), Peers/Users the
-- list of users (the loop over the payload has the length of the payload as its fuel, which is more
-- than its tokens). Peers/Wiring is about which agent belongs to which peer.
--
-- Audio is the playback buffers of AudioEngine.hpp, up to which sources lose a frame to the mix; the
-- mix reads the samples of a frame through a reference to it after it has left the buffer.
--
-- Common has the helpers: lists and byte strings over the native numbers, maps as association
-- lists, decimal numerals, Option results.
--
-- Not modelled: sockets, threads and locks. A handler is one step; most run under one lock, but
-- StartNextBatch and CheckPairTimeouts of IceAgent leave theirs around each SendBindingRequest, where
-- other calls may come in between, which the model has before or behind the loop. Not modelled either:
-- conversions between character sets that throw in std::filesystem::path,
-- the console output, screen capture and JPEG, the sound devices and the filters of sound, which
-- compute in floating point, the enumeration of network adapters, drawing, the settings of
-- ScreenShareEngine, the parser of ExecuteCommand, the counters of audio packets.
pub mod Common
pub mod Wire
pub mod Files
pub mod Signal
pub mod Screen
pub mod Ice
pub mod Stun
pub mod Peers
pub mod Audio
