-- ===== src/Mqtt.antt =====
-- ota-mqtt.cpp and ota-mqtt.hpp, lines 1 to 555: the JSON command that the agent parses and the JSON
-- status that it builds.
pub mod Utf8
pub mod Text
pub mod Strings
pub mod Sound
pub mod Valid
pub mod Shrinks
pub mod Command
pub mod Commands
pub mod Payload
