-- ===== src/Lib.antt =====
-- A chat node: clients connect by TCP and send frames, one worker thread handles the requests in
-- them, and the nodes notify each other by gRPC. Users, friends and applications are in MySQL;
-- tokens, the node of each user, login counters and copies of users' data are in Redis.
--
-- The parts, from the network inwards, and the files that model them:
--
-- - Frame (src/net/MsgNode.cpp): the buffers MsgNode, RecvNode and SendNode, and the bytes of a
--   frame. Session (src/net/CSession.cpp, src/net/CServer.cpp): a connection. `send` is its
--   method, with the copies into the node as Frame.Copies has them, `wrote` is handleWrite, and
--   `close` the method of that name; Session.Receive has the callbacks of AsyncReadHead and
--   AsyncReadBody, with asyncReadLen, which runs as `read_event` for each completion of
--   async_read_some. A whole body becomes a LogicNode, which postMsgToQue hands to the worker.
-- - Logic (src/application/LogicSystem.cpp): Dispatch is dealMsg and registerCallBacks, with a
--   turn of the loop as `deal_turn`; Wakeup is the lock and the condition variable between
--   postMsgToQue, dealMsg and the destructor, step by step. Login, Lookup, Friends and Chat are
--   the handlers, and Presence follows the login counter from a login to the end of its
--   connection. A handler answers by `send` on its session and finds another user's session by
--   UserMgr, or his node by Redis.
-- - Node (src/app/ChatServer.cpp): the start of the login counter in `main`, and the connections
--   that are accepted, logged in and closed after it, as a list of events. Node.Main is `main`
--   around them, with what the worker still does beside its end, and Node.Listen the addresses
--   that the node listens on, by `main` and CServer's constructor. Node.System is the whole node
--   as steps: accepts, reads and writes of the sessions, turns of the worker and calls of other
--   nodes, in any order; Node.Safe, Node.Queue and Node.Faults are about it. Node.Request,
--   Node.Delivery, Node.Forward and Node.Across follow a client's text through the node, and
--   through ChatClient and gRPC to a second one. Node.Accept is CServer's loop of accepts.
-- - UserMgr (src/application/UserMgr.cpp): the session of each user on this node.
-- - ChatService (src/application/ChatServiceImpl.cpp): what another node's call does here.
-- - Profile: the JSON copy of a user's data that both of them write and read. Domain
--   (src/domain/const.h, src/domain/data.h) and Rpc (proto/message.proto): constants and
--   structures.
-- - Pool (src/infra/redis/RedisConPool.cpp): connections that are opened, taken, given back and
--   checked. Pool.ChatCon (src/infra/grpc/ChatConPool.cpp), Pool.StatusCon
--   (src/infra/grpc/StatusConPool.cpp) and MySqlPool.Users (src/infra/mysql/MySqlPool.cpp) are the
--   same methods of the other pools. MySqlPool is its constructor and the check of the database
--   connections. Pool.Shared interleaves the checks with the users, step by step, and Pool.Closing
--   `close` of the Redis pool with its check thread, where Pool.Deadlock shows what can come of
--   it.
-- - IoPool (src/net/AsioIOServicePool.cpp): the contexts, their turn, and their stop.
-- - Redis (src/infra/redis/RedisMgr.cpp): get, set, hSet, hGet and hDel over such a pool, with
--   hiredis as an argument that takes the words of a command; Redis.Leaks is about its
--   connections. MySqlDao (src/infra/mysql/MySqlDao.cpp): the queries, with the connector as an
--   argument that takes the text of a statement and its parameters; MySqlMgr
--   (src/infra/mysql/MySqlMgr.cpp) passes them on. ChatClient (src/infra/grpc/ChatGrpcClient.cpp)
--   calls the other nodes and StatusClient (src/infra/grpc/StatusGrpcClient.cpp) the status
--   server, with the generated stubs as arguments. MySqlMgr.Refines relates the database to
--   Services.
-- - Config (src/infra/config/ConfigMgr.cpp): the sections that are read from the JSON file at the
--   start, and their values by section and key.
-- - Utils (src/common/utils.cpp): the URL coding.
--
-- The state is World.World: the sessions by pointer, CServer's and UserMgr's maps, the logic
-- queue, and everything outside the process as one state `S`. Code that changes it is a function
-- of World to an outcome and the world after it (World.M): it returns, throws an exception, or
-- writes outside its memory. A piece of code that holds its lock, or runs between two waits, is
-- one such function, and the orders of the pieces are lists of events where a theorem is about
-- them. A handler and CSession::close are whole pieces, too, although other threads run beside
-- them: of what this hides, Logic.Presence.Race has the reads and writes of the login counter that
-- fall between each other. `_socket.close()` is taken to return. C++ strings are lists of bytes.
-- An `int` is an integer, and its overflow a fault (Logic.Login.increment); a `short` on the wire
-- is its 16 bits. Loops are recursion on a list, or on the number of turns that the code takes at
-- most, so no fuel is used.
--
-- JsonCpp (Json), hiredis, the MySQL connector and the gRPC stubs are records of operations that
-- the definitions take as arguments. The handlers take Redis, MySQL, the gRPC clients and the
-- configuration as one such record, Services, whose calls always return. Laws of these records are
-- hypotheses of the theorems that need them (JsonLaws, HashLaws, ReadLaws, TextLaws, Stores,
-- FriendLaws, Reads, Serves, IsUniform), and Calls says that a call of Services is one of
-- ChatClient; Samples and the Tests have instances that meet them. Of the SQL statements the model
-- has the text; what a statement means is such a law.
--
-- A call over a pool waits where the pool is open and empty: it is then a result of its own
-- (Called, Run), and the theorems that a call returns say how many connections are enough.
-- ChatClient builds a response in the caller's place, so that a Defer still changes it, as the
-- common compilers do for `return rsp`.
--
-- World.Keeps, World.Changes, World.Spares, World.Faultless, World.Queue, World.Alike and
-- Session.Moves have rules, for each way that code is built, about a part of the world that it
-- leaves alone or changes once, about a session that it spares, about memory faults, about the
-- queued messages, about the moves of each session, and about two worlds that differ in the
-- sessions' users. The handlers are built (World.Built) in a few ways, so each of these holds of
-- them by one induction.
--
-- Not modelled: the threads of boost::asio and of the gRPC server, the signals, and log output.
-- The copies of SectionInfo and the destructors of the singletons have no definition.
pub mod Base
pub mod Utils
pub mod Domain
pub mod Config
pub mod Json
pub mod Rpc
pub mod Services
pub mod Frame
pub mod World
pub mod Samples
pub mod UserMgr
pub mod Session
pub mod Profile
pub mod Logic
pub mod Node
pub mod ChatClient
pub mod StatusClient
pub mod ChatService
pub mod Pool
pub mod Redis
pub mod IoPool
pub mod MySqlPool
pub mod MySqlDao
pub mod MySqlMgr
