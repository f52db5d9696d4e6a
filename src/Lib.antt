-- ===== src/Lib.antt =====
-- The update programs of the board, verified: ota-agent of
-- meta-alientek/recipes-core/ota/ota-agent/files/src, mqtt-agent of
-- meta-alientek/recipes-core/ota/mqtt-agent/files/src and the web server of
-- meta-alientek/recipes-apps/board-ui/webserver/files/src, by the parts of these programs. mqtt-agent
-- keeps the session with the MQTT broker and runs ota-agent for each command; ota-agent prints its
-- status, which mqtt-agent forwards. The web server shows the samples of the sensors and runs ota-apply
-- on a package that is uploaded. The dashboard runs ota-agent --pull-latest and shows its progress.
--
-- Prelude    C strings as lists of bytes, with the functions of libc on them, and shared lemmas.
-- World      the machine: files, the U-Boot environment, locks, errno and a log of what left the
--            process. The kernel, libc and other programs are a parameter, the record Platform.
-- Defaults   ota-defaults.cpp: otaTrimInPlace (trim), otaApplyDefaultAssignment, otaLoadDefaultFile.
-- State      ota-state.cpp: OtaState, otaStateSetResult; State.Json the text of the state file;
--            State.Store otaStateSave, otaStateLoad and the lock; State.Environment the copy in the
--            U-Boot environment.
-- Discover   ota-discover.cpp: parseListingHtml, pickBestSwuName; Discover.Resolve the download.
-- Mqtt       ota-mqtt.cpp up to line 555: UTF-8, JSON strings, commands, the status.
-- Backend    ota-mqtt.cpp from line 557 on: the stub (Backend) and the Paho client (Backend.Paho,
--            with the callbacks in Backend.Pending), and Backend.Report otaReportCommittedState and
--            otaReportFailureState.
-- Exec       ota-exec.cpp: runCommand, otaPrepareTargetSlot, otaRunUpgrade, otaReadCurrentVersion;
--            Exec.Cmdline readCurrentSlot; Exec.Recovery otaRecoverPendingState.
-- Download   ota-download.cpp: otaDownloadPackageWithProgress; Download.Checksum otaVerifySha256.
-- Agent      ota-agent.cpp: executeApplyPipeline, executePullLatestPipeline; Agent.Versions
--            compareVersions; Agent.Commands the commands; Agent.Startup the recovery and main;
--            Agent.Quiet which calls start ota-apply, by the log of the world.
-- Daemon     mqtt-agent.cpp: loadRuntimeSettings; Daemon.Network scanLanForBroker; Daemon.Broker
--            ensureSession; Daemon.Lines consumeOtaChunk; Daemon.Child startOtaCommand and
--            pollOtaOutput; Daemon.Loop maybeHeartbeat and main.
-- Web        webserver-http.c: sendResponse and recvHttpHeaders; Web.Parse its parsers; Web.Upload
--            webserver-upgrade.c up to extractSwuFromMime and the headers, Web.Upgrade
--            runBoardApplyUpdate and handleUpgrade; Web.Samples webserver-samples.c and
--            webserver-icm.c; Web.Server webserver.c: the settings, handleClient and main.
-- Panel      the update page of the dashboard, meta-alientek/recipes-apps/board-ui/dashboard/files/src:
--            sys/ota/ota_status.cpp readOtaStatus and refreshOtaLabels of ui/dashboard/dashboard.cpp;
--            Panel.Update onOtaPullLatest, onOtaPullStdout and onOtaPullFinished, which read what
--            emitOtaProgress of ota-agent prints.
-- Tests      runs on concrete inputs, on the machine of Tests.Machine.
--
-- A function of the source has its name in snake case. One that may fail gives a Result, with the
-- text of its error buffer, in the state-passing monad Io of World; errno is a field of the world.
-- A fixed char array holds the bytes before the terminator, and `fit n` is what snprintf leaves in n
-- bytes. Loops are structural or run on fuel that the length of the text bounds, and lemmas named
-- -fuel show that more fuel changes nothing. waitpid is interrupted a finite number of times,
-- and the rounds of the download are a parameter (Rounds). compareVersions gives none where its loop
-- does not end; otherwise as many rounds as the texts have bytes, and one more, are enough. Its ints
-- are patterns of 32 bits that wrap around.
-- The session of ota-mqtt.cpp is a record in the world (World.Globals). The Paho client and the calls
-- of the system that mqtt-agent makes are parameters (Paho, Host): functions of the whole world, which
-- the loop of mqtt-agent takes anew for each round. The callbacks of the client come while a call of
-- it runs, before the code looks at the result, between two operations, or between the two stores of
-- clearMqttPending; each runs as a whole. A read of the pipe gives finitely many pieces before it would
-- wait.
-- The web server has the world and, for a connection, what its calls of recv and send give, as lists
-- (Recv, Sent); its database is a parameter. gUpgradeBusy is the field busy. The searches for a header,
-- a pair of the query and a part run on fuel that is the length of the text, and every round takes
-- a byte off it. Qt is a parameter of the update page (Qt), whose laws on ASCII texts are the record
-- IsQt; a QString is the list of its units.
--
-- Not modelled: writing to stderr; close, and fsync apart from the write before it; allocation
-- failures in the listing; the handlers of signals, the descriptors that a child closes and its
-- environment in mqtt-agent; the socket of the web server, the system log, and what its child sets up
-- before exec; the other pages of the dashboard, the drivers, the scripts and the recipes, which are
-- other programs.
pub mod Prelude
pub mod World
pub mod Defaults
pub mod State
pub mod Discover
pub mod Mqtt
pub mod Exec
pub mod Download
pub mod Backend
pub mod Agent
pub mod Daemon
pub mod Web
pub mod Panel
pub mod Tests
