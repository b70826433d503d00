-- ===== src/Lib.antt =====
-- The C++ Middleware Writer library and its tiers.
--
-- The program serializes values into messages, sends them between a front tier (genz), a middle tier
-- (the C++ Middleware Writer Ambassador, cmwAmb) and a back tier, and reads them back. A message is
-- built in a SendBuffer and read from a ReceiveBuffer; the connection to the back tier is compressed.
--
-- Prelude: numbers, lists and memory. A block of memory is a list of bytes; an access outside it is a
--   fault, which is a result of its own (Failure.Run), besides a value and an exception. int, int32_t
--   and int16_t are integers that are narrowed where the code converts; unsigned values are bit
--   patterns. The byte order is little-endian, as in the format SameFormat on the usual machines.
-- Failure: class Failure, raise and fromChars of src/cmwBuffer.hh. fromChars is that of a number in
--   the range of int.
-- SendBuffer: class SendBuffer and the functions `receive`. Its children see it as the messages that
--   are complete, the message in the making and the free space.
-- ReceiveBuffer: class ReceiveBuffer, giveBool and giveVec. Its children see the current message as
--   what is read and what is not, and walk through the messages of a packet.
-- ByteOrder: the formats LeastSignificantFirst and MostSignificantFirst, for integers, and give<T>.
--   What the variable that is read into holds is an argument. MixedEndian does not compile where it is
--   instantiated.
-- MarshallingInt: class MarshallingInt and the texts that it measures. The encoder has fuel for five
--   bytes, which 32 bits never exceed; the decoder has as much fuel as there are unread bytes, and one
--   round more, in which the read throws.
-- Wire: what it means that a writer and a reader agree on a value.
-- Messages: the generated functions of src/tiers/cmwAmb.mdl.hh, src/tiers/front/genz.mdl.hh and
--   example/example.mdl.hh. Outbox says what a SendBuffer promises without its bytes and positions,
--   and Answering and Refines that it keeps the promise.
-- FixedString: class FixedString.
-- Io: Open, Write, Read and Recv, over the replies of the system, which are arguments.
-- Compressed: class BufferCompressed. The compressor, src/quicklz.h, is another project's and a
--   parameter; the bound that it documents is a hypothesis.
-- FileBuffer: class FileBuffer of src/tiers/cmwAmb.cc. A line has room for 120 characters, which is
--   also the fuel of getline: the size test comes before it is used up.
-- Uring: src/tiers/ring_setup.hh and the sizes of src/tiers/cmwAmb.cc. The sizes of the kernel's
--   structures and of a page are parameters. Setup is the constructor of ioUring, in which an
--   address is a number, and Making says where things lie in the memory that it maps.
-- Complex: complex numbers and the segments of collections of src/cmwComplex.hh. How an object is
--   written and read is a parameter; a segment has fewer than 2 to the 31 objects.
-- Poly: the polymorphic classes of example/poly/base.hh and the message that carries a collection of
--   them, example/poly/testing.mdl.hh. A collection is boost's and stands for what boost
--   documents: a list of objects for each class that is registered, where reserve registers, emplace
--   adds at the end, and size counts; size<T>() is a parameter. Programs has
--   example/poly/sendPoly.cc and receivePoly.cc, Runs and Sizes are about the receiver.
-- Ambassador: the rest of src/tiers/cmwAmb.cc. Ring has the entries that ioUring prepares, Request the
--   class cmwRequest, Config what main does before it makes the ring, Launch what it does between that
--   and its loop, Login the login, and Loop the handlers of main: one function for each kind of
--   completion. What the system answers is a record World, given with each completion; the results of
--   io_uring_submit_and_wait are a list in the state, and a call for which none is left waits, which is
--   a fault. A result above 0 is the number of entries that the kernel takes. The fuel of the loop over
--   the lines of the middle file is an argument, and running out of it is a fault. Order and Newest are
--   about the entries of the ring, Replies and Vanished about what the front tiers are told, Keeps,
--   Keeping, Accepting and Popping about the queue of requests. An exception from the destructor of a
--   cmwRequest ends the process, here by a throw that nothing catches.
-- Sockets: SockaddrWrapper, udpServer and setRcvTimeout of src/cmwBuffer.hh, and GetaddrinfoWrapper
--   and tcpServer of src/cmwComplex.hh, over what the system answers.
-- Client: src/tiers/front/genz.cc, with send and getPacket of BufferStack. The loop has fuel for its two
--   rounds and the last test. Request is about what is sent, Answers and Ends about what comes back.
--   Jni is the client of experimental/jni/genzMain.cc.
-- Example: example/sendExample.cc, receiveExample.cc, messageIDs.hh and the rest of example.mdl.hh.
--   The receiver is run on the datagrams that come in, and waits behind the last of them. Sets, Ordered,
--   Kinds and Round are about one message, Exchange, Stops and Sends about the two programs.
-- Experimental: experimental/BufferFile.hh and ReceiveBufferTCP.hh. Their base classes and the
--   calls on descriptors are not in the repository and are parameters. A caller polls with as much fuel
--   as the packet has bytes, or flushes with one call more than there are bytes.
-- Tests: the theorems at concrete inputs.
--
-- Not modelled: MixedEndian and SendBuffer::flush, which do not compile where they are used; the
-- atomics, whose memory order the model does not have; syslog and the other logging; src/quicklz.h,
-- which is another project's; src/tiers/cmwA.cc, which is a copy of cmwAmb.cc; the function of
-- experimental/jni/genzMain.cc that takes its arguments from Java, and experimental/messageID.hh,
-- which includes a header that is not in the repository.
pub mod Prelude
pub mod Failure
pub mod SendBuffer
pub mod MarshallingInt
pub mod ReceiveBuffer
pub mod Wire
pub mod Messages
pub mod FixedString
pub mod Io
pub mod Compressed
pub mod Example
pub mod Experimental
pub mod FileBuffer
pub mod Uring
pub mod Complex
pub mod Poly
pub mod ByteOrder
pub mod Sockets
pub mod Client
pub mod Ambassador
pub mod Tests
