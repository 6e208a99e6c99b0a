-- ===== src/Lib.antt =====
-- A verification library for MPFC, the runtime in which flight cores and plugins run as processes around
-- one local MQTT bus.
--
-- The parts of the program, and how they meet:
--   main.py reads the configuration, merges the plugins' templates into it, chooses the backend of the
--   controller, starts the core and the plugins, and supervises them until they all end. Every process
--   holds a RuntimeBase (lib/common.py), a PluginBase or a CoreBase, with one MqttBusClient
--   (lib/mqtt_bus_client.py) and one BusRouter (lib/common.py), and publishes state through a
--   StateScheduler (lib/state_scheduler.py). plugins/uav_controller stands between programs and the
--   backend of the vehicle: it numbers their commands, forwards them, and hands the replies back.
--   plugins/execution_ingress takes OCCID records from remote nodes, assembles them to executions, and
--   flies the moves that they ask for through the controller. plugins/msp_interface is such a backend: it
--   carries commands out on a flight controller that speaks MSP, and publishes what it reads from it.
--   plugins/mavsdk_interface is one for PX4 and ArduPilot, by the mavsdk package.
--   plugins/hivelink_interface carries OCCID records between the bus and remote nodes.
--
-- Which file models which part:
--   Prelude, Dict, Exec, Text: Booleans, numbers, lists, Python's dict and str, exceptions as values.
--   Json: the values of YAML, of JSON and of the bus, and build_envelope of lib/common.py.
--   Topics: the topic builders of lib/common.py and the tables from topics to keys.
--   Mqtt: MqttBusClient of lib/mqtt_bus_client.py.
--   Router: BusRouter of lib/common.py; Router.Wait is about wait_response, Router.Pump about pump_once.
--   Runtime: RuntimeBase of lib/common.py, PluginBase of lib/plugin_base.py, CoreBase of lib/core_base.py.
--   Scheduler: StateScheduler of lib/state_scheduler.py.
--   Occid: decode_occid_command and decode_occid_input of lib/occid_bus.py; the encoding and decoding of
--   the OCCID package is an argument.
--   Semantics: the fields of OCCID commands and inputs that a backend reads, with the tests that
--   lib/uav_semantics.py and the backend make on them.
--   Controller: UavController of plugins/uav_controller/uav_controller.py.
--   Ingress: plugins/execution_ingress/execution_ingress.py; Ingress.Bundle, Keeping, Store, Vehicle,
--   Track and Execute are the code, and the modules beside them hold what is shown of it.
--   Msp: MspInterface of plugins/msp_interface/msp_interface.py. Msp.Channels, Flight, Commands, Loops,
--   Telemetry and Main are the code; the modules beside them hold what is shown of it.
--   Mavsdk: MavsdkInterface of plugins/mavsdk_interface/mavsdk_interface.py. Mavsdk.Commands, Direct,
--   Inputs, Telemetry and Tasks are the code, and the modules beside them hold what is shown of it.
--   Hivelink: HiveLinkPlugin of plugins/hivelink_interface/hivelink_interface.py.
--   Supervisor: the loop at the end of start_from_config in main.py.
--   Config: the functions of main.py on the configuration. Config.Apply is apply_runtime_overrides,
--   Config.Placeholders resolve_placeholders, Config.Templates apply_plugin_config_templates and
--   resolve_plugin_supports.
--   Uav: the control fields of lib/uav.py.
--
-- How the code is read:
--   A method is a function from the state before to its result and the state after; an exception is the
--   value err, with the class and the text that a handler reads. Where an f-string of an error shows a
--   value, the text is shortened to its fixed words.
--   Times are ticks of one clock, whole numbers; a difference of times is written as a sum on the other
--   side of the comparison. Lengths are millimetres and fractions are thousandths, whole numbers too,
--   and a progress that is no whole number of thousandths is rounded up. A float in a bus value is its
--   text.
--   A loop that waits runs over a list of turns: each turn holds what the loop reads in it, the clock and
--   what is received. The result none says that the turns ended before the loop did, so that a theorem
--   over all lists of turns is one over all runs; the termination theorems say which turns are enough.
--   The theorems on the MSP adapter are about one method at a time. Its waiting loops see in each turn what
--   the other threads have changed; else a method runs as if no other thread changed what it reads, and
--   nothing is claimed of races between the threads. What the flight controller answers
--   to a call is an argument, a function of the calls made before. Altitudes and positions there are
--   whole numbers of a fixed small unit. Python's float, json.loads and str are arguments as well.
--   The tasks of the MAVSDK adapter share one thread: a method is a coroutine, which runs without a break
--   as far as its next call of the package or wait for a queue, and any other task may run meanwhile.
--   What the package answers is open. That the tasks are cancelled in the end is left out.
--   What the float() of a text gives, and the wall clock in an OCCID envelope, are arguments of the HiveLink
--   relay. An error that receive raises ends the supervisor's loop, and KeyboardInterrupt, which may come
--   anywhere in it, is taken to come out of receive.
--   What paho does with a publish is an argument of MqttBusClient.publish; above it a publish is taken to
--   be accepted. The great-circle distance is an argument of the code that compares it.
--
-- What is not modelled: the threads of paho, sockets, files and processes; the encoding of OCCID models;
-- how the MAVSDK adapter connects and ends; the plugins for ATAK, Liftoff, YOLO and PX4; the
-- example flight cores; the float arithmetic of lib/geo_utils.py; printing. None of them decides what the
-- modelled parts do, or they enter as arguments.
pub mod Prelude
pub mod Dict
pub mod Exec
pub mod Json
pub mod Text
pub mod Topics
pub mod Mqtt
pub mod Semantics
pub mod Msp
pub mod Mavsdk
pub mod Hivelink
pub mod Router
pub mod Runtime
pub mod Scheduler
pub mod Occid
pub mod Controller
pub mod Ingress
pub mod Supervisor
pub mod Config
pub mod Uav
