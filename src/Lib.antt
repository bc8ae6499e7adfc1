-- ===== src/Lib.antt =====
-- A verification library for the mimic defence component: a scheduler keeps a set of different
-- executors behind one service active, a proxy sends every request to all of them, and their
-- answers are compared and judged.
--
-- The parts. `MimicSchedule` (src/mimic_schedule.cpp) keeps `allExecList` and `activeExecList`,
-- maps from "ip:port" to an executor. A timer tests every executor and calls execAutoReportCb
-- with the result; another calls execAtuoSchedule, which replaces the executor that has been
-- active longest; operators, proxies and judges send requests. doUpdown takes one executor down
-- and brings one up by one of three policies. After every change both lists are published to the
-- subscribers. A `ProxyTask` (src/proxy_task.cpp) is one request of a client: each answer is put
-- into a group of equal answers, and as soon as a rule gives a result it is returned to the
-- client (src/mimic_proxy.cpp, respToFront). When all answers are in, the differences are
-- counted per executor, and an executor with too many is reported to the scheduler, which is the
-- request doReportError. A `MimicSuber` (src/mimic_suber.cpp) in every proxy and judge rebuilds
-- the lists from what the scheduler publishes. `MimicJudge` (src/mimic_judge.cpp) stands behind
-- the executors, where their requests of a backend are compared: it gets one request of one
-- executor, gives it a number and hands it by a pipe to a `MimicJthread`
-- (src/mimic_jthread.cpp), chosen by the request's sid. The thread keeps a `JudgeTask`
-- (src/judge_task.cpp) per sid, which compares the requests, sends one of them to the backend,
-- and gives every executor the backend's answer. When a timer finds that a task has waited too
-- long, it puts a request of "/default_timeout" in the place of every one that did not come.
-- src/mimic_proxy.cpp also answers the requests of a monitor: it passes an operator's request on
-- to the scheduler and keeps the connection until the answer comes.
--
-- Files. `Base` holds the shared names, Boolean tests, lists, texts and integers; `Map` is
-- std::map as an association list in the order of the keys, with its laws. `Schedule.State` is
-- the state of the scheduler; `Schedule.Policy` the policies; `Schedule.Updown` doUpdown,
-- execAtuoSchedule and initActiveExec; `Schedule.Report` execStatusReport, execAutoReportCb,
-- initMysqlAndPub and the end of cleanThread; `Schedule.Manual` the requests;
-- `Schedule.Dispatch` readCb, eventCb and doUpdateScweight; `Schedule.Start` is the first start
-- and `Schedule.Life` the life of a started scheduler, as sequences of steps. `Suber` is
-- MimicSuber, `Util` the maps of ports of MimicUtil. `Proxy.State` is the state of a task;
-- `Proxy.Compare` cmpJudgeData; `Proxy.Json` comJsonBody and flatJson; `Proxy.Judge` judgeData
-- and timeOrWeightJudge; `Proxy.Analyse` analyseJudgeResult, sendToSchedule and respToFront;
-- `Proxy.Convert` convertFromCincerOrNeutron of src/mimic_proxy.cpp; `Proxy.Callbacks`
-- proxyReqCb, proxyReqErrCb and addErrorJudgeData; `Proxy.Front` allReqCallback, makeSidTask and
-- clearTask; `Proxy.Monitor` doManualOpt and the handlers of the monitor. `Judge.State` is the
-- state of a JudgeTask and its thread; `Judge.Compare` the comparison of two requests;
-- `Judge.Decide` judgeData and the rules; `Judge.Analyse` the count of differences and the
-- reports; `Judge.Respond` the call of the backend and the answers to the executors;
-- `Judge.Process` processJudgeData; `Judge.Thread` the thread's tasks, pipe and timer;
-- `Judge.Front` the handlers of MimicJudge. `Judge.Life` is the life of a task as a step
-- relation, and `Judge.Protocol` the abstract protocol of a task. `Base.Text.Numbers` reads and
-- writes decimal numbers. A function of the source has the name of its method in snake_case. The
-- other modules hold the lemmas and, in the `Tests`, concrete runs.
--
-- Conventions. A handler is a function from state to state. What it does under the lock of its
-- service is not interleaved with other handlers; a change between two locked parts of one
-- handler is not modelled. What it writes to the database, to sockets and to threads is kept in
-- a list, newest first. A policy's throw, its returned address and undefined behaviour (`rand()
-- % 0`, a sum of weights that is no int) are values of `Outcome`. Weights of the scheduler are
-- taken not to be negative, which the monitor's request does not ensure. The clock, `rand` and
-- the order that std::sort gives to equal elements are parameters, and so are the answers of the
-- database, what jsoncpp parses and writes, what isNumber and std::regex make of a text, and,
-- where the counting is concerned, convertFromCincerOrNeutron. Times, weights, ports and
-- counters that only grow are natural numbers; `status` and `manualDownNum` are integers; a
-- failure count wraps at INT_MAX as in the source; the sixty seconds between two cleanings are a
-- subtraction modulo 2 ^ 64. The loop of doUpdateConfig is on fuel, the length of the active
-- list, and each round makes that list shorter by one, so the loop ends by its own test; so are
-- the digits of std::to_string, with one round more than the number. The pointers by which
-- std::map orders the groups of a task are the numbers `ptr`. Of libevhtp, whether a connection
-- is still open, a call's success and the backend's answer are parameters or arguments; so are
-- what jsoncpp reads of a Server-Array, how std::regex splits a text, and what the database
-- answers to a LIKE. `none` stands where the source makes a std::string of a null pointer, takes
-- the first row of an empty answer, lets an exception of jsoncpp escape or writes past a buffer
-- with sprintf. What the database does with the text of an UPDATE is a parameter too. A char is
-- signed. MimicJudge is modelled with one HTTP thread.
--
-- Not modelled: recordJudgeLog, the start of a ProxyTask and the headers it sends, and the
-- reconnection of a subscriber; src/mimic_service.cpp, src/mimic_timer.cpp, the launcher and
-- main, which set up loggers, event loops, timers, threads and processes and read the
-- configuration, a step of a timer being a call of its handler; the libraries in libs. The texts
-- of log lines and SQL statements are left out, and so is the rewriting of `params` in
-- cmpJudgeData, which only the text of a difference shows.
pub mod Base
pub mod Judge
pub mod Map
pub mod Schedule
pub mod Proxy
pub mod Util
pub mod Suber
